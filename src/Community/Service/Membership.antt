-- ===== src/Community/Service/Membership.antt =====
-- Who removes members: `LeaveCommunity` and `KickMember` of service.go.
use constell.Prelude.{
  ℕ, String, ◌≡◌, refl, sym, ap, subst, ◌∙◌, ◌≢◌, ◌⊎◌, inl, inr, false, not, ◌&&◌, ◌||◌, arith,
  if◌then◌else◌, Bool-cases, ◌==◌, nat_eq, string_eq, eq_of_equal, keep, ne_of_unequal,
}
use constell.Prelude.Exec.{Result, ok, err, Exec, pure, ◌>>◌, or_fail, reject_if}
use constell.Prelude.Text.{trim_space}
use constell.Community.Rows.{CommunityRow}
use constell.Community.Permissions.{permission_kick_members}
use constell.Sql.Uuids.{same_uuid}
use constell.Community.Database.{Database}
use constell.Community.Repository.Members.{is_member_row, remove_member, remove_member_sql}
use constell.Rpc.{Code, unauthenticated, invalid_argument, not_found, internal, failed_precondition}
use constell.Community.Service.State.{
  Service, on_store, check_permission, cached_community, invalidate_members,
}
use constell.Community.Service.Wiring.{IsRunning}
use constell.Prelude.Exec.Ends.{after_check, after_step, after_failing, last_check}
use constell.Community.Service.Outcomes.{ticked, with_db, after_write}
use constell.Community.Service.Members.{
  publish_member_left, may_kick, leave_community_handler, kick_member_handler,
}
use constell.Community.Service.Untouched.{
  cached_community-Same, may_kick-Same, Announced, publish_member_left-Announced,
}

-- The tables without the member rows and the role assignments of a user in a community, by the
-- values of the two UUIDs.
abbrev pub without_member : String → String → Database → Database
without_member community_id user_id db = record db {
  members =
      keep (λ m. not (same_uuid m.community_id community_id && same_uuid m.user_id user_id))
        db.members;
  member_roles =
      keep (λ r. not (same_uuid r.community_id community_id && same_uuid r.user_id user_id))
        db.member_roles;
}

-- Two ids that are one UUID only where they are one text, as the database prints them.
abbrev pub IsPrinted : String → String → Type 0
IsPrinted a b = same_uuid a b ≡ (a == b)

other_uuid : (a b : String) → IsPrinted a b → a ≢ b → same_uuid a b ≡ false
other_uuid a b printed other = elim (Bool-cases (a == b)) [
  | inl y ↦ absurd (other (eq_of_equal a b y))
  | inr n ↦ printed ∙ n
]

remove_member_sql-ok :
    (community_id user_id : String) (now : ℕ) (id : String) (db after : Database)
    → remove_member_sql community_id user_id now id db ≡ ok (tt, after)
    → after ≡ without_member community_id user_id db
unfolding remove_member_sql is_member_row
remove_member_sql-ok community_id user_id now id db after h = ground arith

-- How a removal ends: the rows of the member, if he is one, and all his roles are gone and nothing
-- else is, he is not the owner of the community that the cache returned, and the caller was allowed
-- to; or the tables are as before.
abbrev pub Removes :
    (CommunityRow → Type 0) → String → String → Service → Result Code (Unit {0}) × Service → Type 0
Removes Allowed community_id user_id s (ok u, t) =
    (community : CommunityRow) × ((cached_community community_id s).0 ≡ ok community)
    × (community.owner_id ≢ user_id)
    × (same_uuid community.owner_id user_id ≡ false)
    × Allowed community
    × (t.store.db ≡ without_member community_id user_id s.store.db)
Removes Allowed community_id user_id s (err e, t) = t.store.db ≡ s.store.db

module _ (Allowed : CommunityRow → Type 0) (community_id user_id : String) (s : Service)
    (printed : (community : CommunityRow)
      → (cached_community community_id s).0 ≡ ok community
      → IsPrinted community.owner_id user_id) where
  Announced-Removes :
      (community : CommunityRow)
      → (cached_community community_id s).0 ≡ ok community
      → community.owner_id ≢ user_id
      → Allowed community
      → (r : Result Code (Unit {0}) × Service)
      → Announced (without_member community_id user_id s.store.db) r
      → Removes Allowed community_id user_id s r
  unfolding Announced
  Announced-Removes community seen other allowed (ok u, t) h = (
    community,
    seen,
    other,
    other_uuid community.owner_id user_id (printed community seen) other,
    allowed,
    h,
  )
  Announced-Removes community seen other allowed (err e, t) h = absurd h

  -- From a state with the same tables, where the checks have passed.
  remove-Removes :
      (community : CommunityRow)
      → (cached_community community_id s).0 ≡ ok community
      → community.owner_id ≢ user_id
      → Allowed community
      → (t : Service) → t.store.db ≡ s.store.db
      → Removes Allowed community_id user_id s (
          (or_fail internal (on_store (remove_member community_id user_id))
              >> (invalidate_members community_id >> publish_member_left community_id user_id))
            t)
  unfolding remove_member remove_member_sql invalidate_members
  remove-Removes community seen other allowed t same =
      after_write (Removes Allowed community_id user_id s) internal
        (remove_member_sql community_id user_id) _ t same
        λ _ db done.
          let now =
            remove_member_sql-ok community_id user_id 0 "" t.store.db db done
            ∙ ap (without_member community_id user_id) same in
          let removed : Service =
            (invalidate_members {E = Code} community_id (with_db db (ticked t))).1 in
          Announced-Removes community seen other allowed
            (publish_member_left community_id user_id removed)
            (subst (λ d. Announced d (publish_member_left community_id user_id removed)) now
              (publish_member_left-Announced community_id user_id removed))

-- On a running service, where the ids of the owner and of the caller are one UUID only if they are
-- one text, LeaveCommunity removes the caller with all his roles, who is not the owner of the
-- community that the cache returned, or fails and leaves the tables as they were.
pub leave_community_handler-Removes :
    (caller_id community_id : String) (s : Service)
    → IsRunning s
    → ((community : CommunityRow)
        → (cached_community (trim_space community_id) s).0 ≡ ok community
        → IsPrinted community.owner_id caller_id)
    → Removes
        (λ _. Unit {0})
        (trim_space community_id)
        caller_id
        s
        (leave_community_handler caller_id community_id s)
unfolding leave_community_handler
leave_community_handler-Removes caller_id community_id s running printed =
    let id = trim_space community_id in
    let P = Removes (λ _. Unit {0}) id caller_id s in
    let after =
      ((cached_community-Same s.store.db id).at s
        (record { wired = running.communities; tables = refl })).tables in
    after_check P (caller_id == "") unauthenticated _ s (λ _. refl)
      λ _.
        after_check P (id == "") invalid_argument _ s (λ _. refl)
          λ _. after_failing P not_found (cached_community id) _ s after λ community seen.
            after_check P (community.owner_id == caller_id) failed_precondition _ _ (λ _. after)
              λ other.
                remove-Removes (λ _. Unit {0}) id caller_id s printed community seen
                  (ne_of_unequal community.owner_id caller_id other) tt _ after

-- Who may remove whom, by what the checks of KickMember saw.
abbrev pub MayKick : String → String → String → Service → CommunityRow → Type 0
MayKick caller_id community_id user_id t community =
    (user_id ≡ caller_id)
    ⊎ ((community.owner_id ≡ caller_id)
        ⊎ ((check_permission community_id caller_id permission_kick_members t).0 ≡ ok tt))

permitted :
    (caller_id community_id target_id : String) (community : CommunityRow) (t : Service)
    → ((if community.owner_id == caller_id
          then pure tt
          else check_permission community_id caller_id permission_kick_members)
        t).0
      ≡ ok tt
    → MayKick caller_id community_id target_id t community
permitted caller_id community_id target_id community t h =
    elim (Bool-cases (community.owner_id == caller_id)) [
      | inl owner ↦ inr (inl (eq_of_equal community.owner_id caller_id owner))
      | inr plain ↦ inr (inr (rw plain at h))
    ]

may_kick-ok :
    (caller_id community_id target_id : String) (community : CommunityRow) (t : Service)
    → (may_kick caller_id community_id target_id community.owner_id t).0 ≡ ok tt
    → (community.owner_id ≢ target_id) × MayKick caller_id community_id target_id t community
unfolding may_kick
may_kick-ok caller_id community_id target_id community t =
    let P = λ (r : Result Code (Unit {0}) × Service).
      r.0 ≡ ok tt
      → (community.owner_id ≢ target_id) × MayKick caller_id community_id target_id t community in
    elim (Bool-cases (target_id == caller_id)) [
      | inl self ↦
          let me = eq_of_equal target_id caller_id self in
          rw self (
            last_check P (community.owner_id == caller_id) failed_precondition t (λ _ h. cc)
              λ other _.
                (λ same. ne_of_unequal community.owner_id caller_id other (same ∙ me), inl me))
      | inr another ↦
          let pass : Exec Service Code (Unit {0}) =
            if community.owner_id == caller_id
            then pure tt
            else check_permission community_id caller_id permission_kick_members in
          let spare : Exec Service Code (Unit {0}) =
            reject_if (target_id == community.owner_id) failed_precondition in
          rw another (
            after_step P pass (λ _. spare) t (λ e h. cc)
              λ _ passed.
                last_check P (target_id == community.owner_id) failed_precondition (pass t).1
                  (λ _ h. cc)
                  λ other _. (
                    λ same. ne_of_unequal target_id community.owner_id other (sym same),
                    permitted caller_id community_id target_id community t passed,
                  ))
    ]

-- On a running service, where the id of the owner of the community that the cache returned and
-- the given id are one UUID only if they are one text, as for ids in the form that the database
-- prints, a KickMember that answers removes the rows of that member, if there are any, with the
-- roles that the member had, and nothing else. The member is never that owner, and the caller
-- removes himself, owns the community or passes the check of the permission to kick. Where
-- KickMember fails, the tables stay as they were.
pub kick_member_handler-Removes :
    (caller_id community_id user_id : String) (s : Service)
    → IsRunning s
    → ((community : CommunityRow)
        → (cached_community (trim_space community_id) s).0 ≡ ok community
        → IsPrinted community.owner_id (trim_space user_id))
    → Removes
        (MayKick caller_id
          (trim_space community_id)
          (trim_space user_id)
          (cached_community (trim_space community_id) s).1)
        (trim_space community_id)
        (trim_space user_id)
        s
        (kick_member_handler caller_id community_id user_id s)
unfolding kick_member_handler
kick_member_handler-Removes caller_id community_id user_id s running printed =
    let id = trim_space community_id in
    let target = trim_space user_id in
    let Allowed = MayKick caller_id id target (cached_community id s).1 in
    let P = Removes Allowed id target s in
    let after =
      (cached_community-Same s.store.db id).at s
        (record { wired = running.communities; tables = refl }) in
    after_check P (caller_id == "") unauthenticated _ s (λ _. refl)
      λ _.
        after_check P (id == "" || target == "") invalid_argument _ s (λ _. refl)
          λ _. after_failing P not_found (cached_community id) _ s after.tables λ community seen.
            let checked =
              ((may_kick-Same s.store.db caller_id id target community.owner_id).at _
                after).tables in
            after_step P (may_kick caller_id id target community.owner_id) _
              (cached_community id s).1 (λ e. checked)
              λ _ passed.
                let (other, allowed) =
                  may_kick-ok caller_id id target community (cached_community id s).1 passed in
                remove-Removes Allowed id target s printed community seen other allowed _ checked
