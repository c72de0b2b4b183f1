-- ===== src/Community/Service/Authority.antt =====
-- What a passed and a refused checkPermission of service.go say of the tables.
use constell.Prelude.{
  ℕ, ◌^◌, String, ◌≡◌, refl, sym, ap, ◌∙◌, ◌≢◌, ◌⊎◌, inl, inr, Bool, true, false, ◌&&◌, ◌||◌, List,
  [], ◌∷◌, arith, Bool-cases, ◌==◌, nat_eq, string_eq, eq_of_equal, ne_of_unequal, keep, any,
}
use constell.Prelude.Exec.{Result, ok, err}
use constell.Community.Rows.{CommunityRow, RoleRow}
use constell.Community.Permissions.{
  grants, compute_permissions, has_permission, has_permission-compute_permissions,
}
use constell.Sql.{DbError, order_by, insert_by}
use constell.GroupCache.Cache.{CacheError}
use constell.Community.Database.{Database}
use constell.Community.Repository.Channels.{int_le}
use constell.Community.Repository.Roles.{list_member_roles, has_assignment}
use constell.Rpc.{Code, not_found, internal, permission_denied}
use constell.Community.Service.State.{Service, check_permission, cached_community}
use constell.Prelude.Exec.Ends.{after_outcome, last_check}
use constell.Community.Service.Outcomes.{after_failed_read}

module _ {A : Type 0} (p : A → Bool) (le : A → A → Bool) where
  any-insert_by : (x : A) (ys : List A) → any p (insert_by le x ys) ≡ (p x || any p ys)
  unfolding insert_by
  any-insert_by x [] = refl
  any-insert_by x (y ∷ ys) = ground (arith, any-insert_by x ys)

  any-order_by : (xs : List A) → any p (order_by le xs) ≡ any p xs
  unfolding order_by
  any-order_by [] = refl
  any-order_by (x ∷ xs) = any-insert_by x (order_by le xs) ∙ ap (λ b. p x || b) (any-order_by xs)

any_of_kept :
    {A : Type 0} (p q : A → Bool) (xs : List A) → any p (keep q xs) ≡ any (λ x. q x && p x) xs
any_of_kept p q [] = refl
any_of_kept p q (x ∷ xs) = ground (arith, any_of_kept p q xs)

-- Some role that grants the k-th permission, or the administrator's, is assigned to the user.
abbrev pub is_granted : ℕ → String → String → Database → Bool
is_granted k community_id user_id db =
    any (λ role. has_assignment db community_id user_id role && grants k role) db.roles

-- The outcomes of a check of the k-th permission: passed for the owner and for a user who is
-- granted it, refused for all others; not found where the community cannot be read, internal where
-- the roles of a user who is not the owner cannot; no other.
abbrev pub Decides : ℕ → String → String → Service → Result Code (Unit {0}) × Service → Type 0
Decides k community_id user_id s (ok u, t) =
    (community : CommunityRow) × ((cached_community community_id s).0 ≡ ok community)
    × ((community.owner_id ≡ user_id) ⊎ (is_granted k community_id user_id t.store.db ≡ true))
Decides k community_id user_id s (err permission_denied, t) =
    (community : CommunityRow) × ((cached_community community_id s).0 ≡ ok community)
    × (community.owner_id ≢ user_id)
    × (is_granted k community_id user_id t.store.db ≡ false)
Decides k community_id user_id s (err not_found, t) =
    (e : CacheError DbError) × ((cached_community community_id s).0 ≡ err e)
Decides k community_id user_id s (err internal, t) =
    (community : CommunityRow) × (e : DbError) × ((cached_community community_id s).0
      ≡ ok community)
    × (community.owner_id ≢ user_id)
    × ((list_member_roles community_id user_id (cached_community community_id s).1.store).0 ≡ err e)
Decides k community_id user_id s (err e, t) = ⊥

held :
    (k : ℕ) (community_id user_id owner_id : String) (db : Database) (roles : List RoleRow)
    → (owner_id == user_id) ≡ false
    → order_by
        (λ a b. int_le a.position b.position)
        (keep (has_assignment db community_id user_id) db.roles)
      ≡ roles
    → has_permission
        (compute_permissions
          (record { community_id = community_id; user_id = user_id; nickname = ""; joined_at = 0 })
          roles
          owner_id)
        (2 ^ k)
      ≡ is_granted k community_id user_id db
held k community_id user_id owner_id db roles other read =
    let unowned : (user_id == owner_id) ≡ false = elim (Bool-cases (user_id == owner_id)) [
      | inl same ↦
          absurd (ne_of_unequal owner_id user_id other (sym (eq_of_equal user_id owner_id same)))
      | inr unlike ↦ unlike
    ] in
    let all = keep (has_assignment db community_id user_id) db.roles in
    has_permission-compute_permissions k _ roles owner_id
    ∙ rw unowned (
        ap (any (grants k)) (sym read)
        ∙ any-order_by (grants k) (λ a b. int_le a.position b.position) all
        ∙ any_of_kept (grants k) (has_assignment db community_id user_id) db.roles)

-- A check of the k-th permission passes for the owner of the community that the cache returned
-- and for a user to whom a role with that bit or the administrator bit is assigned in the tables,
-- and is refused with permission denied for the others. It answers not found where the community
-- cannot be read and internal where the roles of a user who is not its owner cannot be read, and
-- no other code.
pub check_permission-Decides :
    (k : ℕ) (community_id user_id : String) (s : Service)
    → Decides k community_id user_id s (check_permission community_id user_id (2 ^ k) s)
unfolding check_permission list_member_roles
check_permission-Decides k community_id user_id s =
    let P = Decides k community_id user_id s in
    after_outcome P not_found (cached_community community_id) _ s (λ e lost. (e, lost))
      λ community seen. elim (Bool-cases (community.owner_id == user_id)) [
        | inl owner ↦ rw owner (community, seen, inl (eq_of_equal community.owner_id user_id owner))
        | inr other ↦
            let apart = ne_of_unequal community.owner_id user_id other in
            rw other (
              after_failed_read P internal _ _ (cached_community community_id s).1
                (λ e lost. (community, e, seen, apart, lost))
                λ roles read.
                  let same =
                    held k community_id user_id community.owner_id
                      (cached_community community_id s).1.store.db roles other cc in
                  last_check P _ permission_denied _
                    (λ refused. (community, seen, apart, sym same ∙ ground arith))
                    (λ passed. (community, seen, inr (sym same ∙ ground arith))))
      ]
