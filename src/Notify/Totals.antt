-- ===== src/Notify/Totals.antt =====
-- The totals of `GetUnreadCounts` against sums over the tables.
use constell.Prelude.{
  ℕ, suc, ◌+◌, ◌%◌, ◌^◌, ◌<◌, String, ◌≡◌, refl, inl, inr, Bool, ◌||◌, List, [], ◌∷◌, arith,
  if◌then◌else◌, Bool-cases, ◌==◌, nat_eq, string_eq,
}
use constell.Prelude.Exec.{Result, ok, err}
use constell.Notify.Store.{
  Channel, Conversation, Tables, Store, query, int32, unread_in_channel, unread_in_dm, is_joined,
  unread_channels, unread_dms, get_unread_channels, get_unread_dms,
}
use constell.Notify.Service.{
  NotifyCode, UnreadCounts, add_dms, add_channels, get_unread_counts_handler,
}

-- All that a user has not read: in the channels of the communities that he is in, and in his
-- conversations.
abbrev pub sum_channels : String → Tables → List Channel → ℕ
sum_channels u t [] = 0
sum_channels u t (c ∷ cs) =
    (if is_joined u t c then unread_in_channel u c.id t else 0) + sum_channels u t cs

abbrev pub is_party : String → Conversation → Bool
is_party u c = c.user_a_id == u || c.user_b_id == u

abbrev pub sum_dms : String → Tables → List Conversation → ℕ
sum_dms u t [] = 0
sum_dms u t (c ∷ cs) = (if is_party u c then unread_in_dm u c.id t else 0) + sum_dms u t cs

add_mod : (a b c : ℕ) → ((a + b % 2 ^ 32) % 2 ^ 32 + c) % 2 ^ 32 ≡ (a + (b + c)) % 2 ^ 32
add_mod a b c = omega arith

add_channels_lem :
    (u : String) (t : Tables) (cs : List Channel) (total : ℕ)
    → total < 2 ^ 32
    → add_channels total (unread_channels u t cs) ≡ (total + sum_channels u t cs) % 2 ^ 32
unfolding add_channels unread_channels
add_channels_lem u t [] total small = omega arith
add_channels_lem u t (c ∷ cs) total small = ground (
  arith,
  add_channels_lem u t cs total small,
  add_channels_lem u t cs ((total + int32 (unread_in_channel u c.id t)) % 2 ^ 32) (omega arith),
  add_mod total (unread_in_channel u c.id t) (sum_channels u t cs),
)

add_dms_lem :
    (u : String) (t : Tables) (cs : List Conversation) (total : ℕ)
    → total < 2 ^ 32
    → add_dms total (unread_dms u t cs) ≡ (total + sum_dms u t cs) % 2 ^ 32
unfolding add_dms unread_dms
add_dms_lem u t [] total small = omega arith
add_dms_lem u t (c ∷ cs) total small = ground (
  arith,
  add_dms_lem u t cs total small,
  add_dms_lem u t cs ((total + int32 (unread_in_dm u c.id t)) % 2 ^ 32) (omega arith),
  add_mod total (unread_in_dm u c.id t) (sum_dms u t cs),
)

-- How GetUnreadCounts ends. The totals are the sums over the tables, modulo 2^32 as int32 adds; no
-- answer changes the tables.
abbrev pub CountsUnread : String → Store → Result NotifyCode UnreadCounts × Store → Type 0
CountsUnread u s (ok reply, t) =
    (reply.channel_total ≡ sum_channels u s.tables s.tables.channels % 2 ^ 32)
    × (reply.dm_total ≡ sum_dms u s.tables s.tables.dm_conversations % 2 ^ 32)
    × (reply.channels ≡ unread_channels u s.tables s.tables.channels)
    × (reply.dm_conversations ≡ unread_dms u s.tables s.tables.dm_conversations)
    × (t.tables ≡ s.tables)
CountsUnread u s (err e, t) = t.tables ≡ s.tables

-- GetUnreadCounts answers with the lists of the two statements and with totals that are the sums
-- of all unread messages of the user over the joined channels and over his conversations, modulo
-- 2^32; it changes no table.
pub get_unread_counts_handler-CountsUnread :
    (u : String) (s : Store) → CountsUnread u s (get_unread_counts_handler u s)
unfolding get_unread_counts_handler get_unread_channels get_unread_dms query
get_unread_counts_handler-CountsUnread u s = elim (Bool-cases (u == "")) [
  | inl nobody ↦ rw nobody refl
  | inr user ↦ rw user (elim (Bool-cases (s.fails s.statements)) [
    | inl down ↦ rw down refl
    | inr up ↦ rw up (elim (Bool-cases (s.fails (suc s.statements))) [
      | inl down ↦ rw down refl
      | inr up' ↦ rw up' (
        omega (arith, add_channels_lem u s.tables s.tables.channels 0 (omega arith)),
        omega (arith, add_dms_lem u s.tables s.tables.dm_conversations 0 (omega arith)),
        refl,
        refl,
        refl,
      )
    ])
  ])
]
