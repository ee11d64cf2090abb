-- ===== src/Rbac/Authority.antt =====
-- A delegated admin cannot hand out more power than their own.
use perchtail.Prelude.{
  ℕ, ◌≡◌, ◌↔◌, refl, Bool, true, false, ◌&&◌, ◌||◌, none, List, [], ◌∷◌, ◌==◌, ==_iff, ==_refl,
  nat_eq, if◌then◌else◌, arith, or_inr,
}
use perchtail.Model.{User, Role, RoleGrant, ScopeType, GlobalCapability, global_eq, scope_eq}
use perchtail.Run.{ok}
use perchtail.Rbac.{
  has_global, global_subset, find_grant, require_global_capability, role_within_authority,
  delete_scope_grants,
}

-- Passing the check of `require_global_capability`.
abbrev pub passes : Role → GlobalCapability → Bool
passes role capability = role.is_super_admin || has_global capability role.global_capabilities

subset_apply :
    (xs ys : List GlobalCapability) (c : GlobalCapability)
    → global_subset xs ys ≡ true
    → has_global c xs ≡ true
    → has_global c ys ≡ true
subset_apply [] ys c h k = ground arith
subset_apply (x ∷ xs) ys c h k = ground (arith, subset_apply xs ys c, ==_iff x c)

subset_build :
    (xs ys : List GlobalCapability)
    → ((c : GlobalCapability) → has_global c xs ≡ true → has_global c ys ≡ true)
    → global_subset xs ys ≡ true
subset_build [] ys f = refl
subset_build (x ∷ xs) ys f =
    rw (f x (rw (==_refl x)), subset_build xs ys (λ c h. f c (or_inr _ _ h)))

-- The endpoints' guard passes exactly the users whose role passes.
pub require_global_capability_iff :
    (user : User) (capability : GlobalCapability)
    → (require_global_capability user capability ≡ ok user) ↔ (passes user.role capability ≡ true)
unfolding require_global_capability
require_global_capability_iff user capability = ground arith

-- A role is within an actor's authority exactly when everything that the role passes the actor
-- passes too: it is super-admin only if the actor is, and every global check that its holders pass
-- the actor passes.
pub role_within_authority_iff :
    (actor : User) (role : Role)
    → (role_within_authority actor role ≡ true) ↔ (
        (role.is_super_admin ≡ true → actor.role.is_super_admin ≡ true)
        × ((c : GlobalCapability) → passes role c ≡ true → passes actor.role c ≡ true))
unfolding role_within_authority
role_within_authority_iff actor role = (
  λ h. (
    ground arith,
    λ c k. ground (arith, subset_apply role.global_capabilities actor.role.global_capabilities c),
  ),
  λ (s, f). build actor.role.is_super_admin role.is_super_admin refl refl s f,
)
  where
    build :
        (a b : Bool)
        → actor.role.is_super_admin ≡ a
        → role.is_super_admin ≡ b
        → (role.is_super_admin ≡ true → actor.role.is_super_admin ≡ true)
        → ((c : GlobalCapability) → passes role c ≡ true → passes actor.role c ≡ true)
        → (if a
            then true
            else if b
            then false
            else global_subset role.global_capabilities actor.role.global_capabilities)
          ≡ true
    build true b ha hb s f = refl
    build false true ha hb s f = cc (s hb)
    build false false ha hb s f =
        subset_build role.global_capabilities actor.role.global_capabilities
          (λ c k. ground (arith, f c))

-- After the grants of a scope are deleted no role finds a grant there, and the search at every
-- other scope finds what it found.
pub find_grant-delete_scope_grants :
    (grants : List RoleGrant) (t t' : ScopeType) (id id' role_id : ℕ)
    → find_grant (delete_scope_grants t id grants) role_id t' id'
      ≡ (if t == t' && id == id' then none else find_grant grants role_id t' id')
unfolding find_grant delete_scope_grants
find_grant-delete_scope_grants [] t t' id id' role_id = ground arith
find_grant-delete_scope_grants (g ∷ gs) t t' id id' role_id = ground (
  arith,
  find_grant-delete_scope_grants gs t t' id id' role_id,
  ==_iff g.scope_type t,
  ==_iff g.scope_type t',
  ==_iff t t',
  ==_iff g.scope_id id,
  ==_iff g.scope_id id',
  ==_iff id id',
)
