-- ===== src/Community/Permissions.antt =====
-- backend/services/community-service/permissions.go. A mask is a number; the bits used are the ten
-- lowest of an int64, so no sign is involved.
use constell.Prelude.{
  ℕ, zero, suc, ◌*◌, ◌^◌, ◌≤◌, ◌<◌, String, ◌≡◌, inl, inr, Bool, true, not, ◌||◌, List, [], ◌∷◌,
  arith, if◌then◌else◌, Bool-cases, ◌==◌, nat_eq, string_eq, any, bit_and, bit_or,
}
use constell.Prelude.Bits.{bit_at, bit_at-bit_or, bit_and_power, bit_at-le}
use native.Mathlib.Nat.{one-le-pow}
use constell.Community.Rows.{MemberRow, RoleRow}

abbrev pub permission_administrator : ℕ
permission_administrator = 2 ^ 0

abbrev pub permission_manage_community : ℕ
permission_manage_community = 2 ^ 1

abbrev pub permission_manage_channels : ℕ
permission_manage_channels = 2 ^ 2

abbrev pub permission_manage_roles : ℕ
permission_manage_roles = 2 ^ 3

abbrev pub permission_kick_members : ℕ
permission_kick_members = 2 ^ 4

abbrev pub permission_ban_members : ℕ
permission_ban_members = 2 ^ 5

abbrev pub permission_manage_messages : ℕ
permission_manage_messages = 2 ^ 6

abbrev pub permission_send_messages : ℕ
permission_send_messages = 2 ^ 7

abbrev pub permission_read_messages : ℕ
permission_read_messages = 2 ^ 8

abbrev pub permission_attach_files : ℕ
permission_attach_files = 2 ^ 9

abbrev pub all_permissions : ℕ
all_permissions = bit_or permission_administrator (
    bit_or permission_manage_community (
      bit_or permission_manage_channels (
        bit_or permission_manage_roles (
          bit_or permission_kick_members (
            bit_or permission_ban_members (
              bit_or permission_manage_messages (
                bit_or permission_send_messages
                  (bit_or permission_read_messages permission_attach_files))))))))

-- The loop over the roles, with the mask so far; a role with the administrator bit ends it.
unfoldable pub collect : ℕ → List RoleRow → ℕ
collect perms [] = perms
collect perms (role ∷ roles) =
    let rest = collect (bit_or perms role.permissions) roles in
    if not (bit_and role.permissions permission_administrator == 0) then all_permissions else rest

unfoldable pub compute_permissions : MemberRow → List RoleRow → String → ℕ
unfolding collect
compute_permissions member roles owner_id =
    if member.user_id == owner_id then all_permissions else collect 0 roles

unfoldable pub has_permission : ℕ → ℕ → Bool
has_permission computed required =
    if not (bit_and computed permission_administrator == 0)
    then true
    else not (bit_and computed required == 0)

-- What a role grants: the required bit, or everything.
abbrev pub grants : ℕ → RoleRow → Bool
grants k role = bit_at role.permissions 0 == 1 || bit_at role.permissions k == 1

bit_test : (b m : ℕ) → b ≤ 1 → 0 < m → not (b * m == 0) ≡ (b == 1)
bit_test zero m h p = ground arith
bit_test (suc zero) m h p = ground arith
bit_test (suc (suc b)) m h p = absurd (omega arith)

-- The tests of HasPermission read bits.
has_permission_bits : (k p : ℕ) → has_permission p (2 ^ k) ≡ (bit_at p 0 == 1 || bit_at p k == 1)
unfolding has_permission
has_permission_bits k p =
    rw (bit_and_power 0 p, bit_and_power k p)
      (ground (
        arith,
        bit_test (bit_at p 0) (2 ^ 0) (bit_at-le 0 p),
        bit_test (bit_at p k) (2 ^ k) (bit_at-le k p) (one-le-pow k 2 (omega arith)),
      ))

-- The rest of the roles, given what has been collected: one step on the bits.
add_role :
    (k perms p : ℕ) → (bit_at (bit_or perms p) k == 1) ≡ (bit_at perms k == 1 || bit_at p k == 1)
add_role k perms p = rw (bit_at-bit_or k perms p) (ground (arith, bit_at-le k perms, bit_at-le k p))

bit_at-zero : (k : ℕ) → bit_at 0 k ≡ 0
bit_at-zero zero = omega arith
bit_at-zero (suc k) = bit_at-zero k

collect_lem :
    (k perms : ℕ) (roles : List RoleRow)
    → has_permission (collect perms roles) (2 ^ k)
      ≡ ((bit_at perms 0 == 1 || bit_at perms k == 1) || any (grants k) roles)
unfolding collect
collect_lem k perms [] = ground (arith, has_permission_bits k perms)
collect_lem k perms (role ∷ roles) =
    let p = role.permissions in
    elim (Bool-cases (bit_and p permission_administrator == 0)) [
      | inl plain ↦ rw plain (
          ground
            (arith, collect_lem k (bit_or perms p) roles, add_role 0 perms p, add_role k perms p))
      | inr admin ↦
          rw admin (ground (arith, has_permission_bits k 1023, bit_and_power 0 p, bit_at-le 0 p))
    ]

-- For every permission bit, the computed permissions hold it exactly if the member owns the
-- community or has a role with that bit or the administrator bit.
pub has_permission-compute_permissions :
    (k : ℕ) (member : MemberRow) (roles : List RoleRow) (owner_id : String)
    → has_permission (compute_permissions member roles owner_id) (2 ^ k)
      ≡ (member.user_id == owner_id || any (grants k) roles)
unfolding compute_permissions
has_permission-compute_permissions k member roles owner_id =
    ground (arith, has_permission_bits k 1023, collect_lem k 0 roles, bit_at-zero k)
