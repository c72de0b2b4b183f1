-- ===== src/Notify/Cursors.antt =====
-- What marking a thread as read does to the unread counts.
use constell.Prelude.{
  ℕ, ◌≤◌, max, String, ◌≡◌, refl, ap, ◌∙◌, inl, inr, Bool, ◌&&◌, List, [], ◌∷◌, arith, eq_iff,
  if◌then◌else◌, Bool-cases, ◌==◌, nat_eq, string_eq,
}
use constell.Prelude.Exec.{Result, ok, err}
use constell.Notify.Store.{
  Posted, ReadState, Tables, Store, StoreError, exec, max_seq, advance, last_read, count_past,
  mark_channel_read, mark_dm_read, channel_state_ok, dm_state_ok, unread_in_channel, unread_in_dm,
}

pub last_read-advance :
    (u t v w : String) (seq : ℕ) (rs : List ReadState)
    → last_read v w (advance u t seq rs)
      ≡ (if v == u && w == t then max (last_read u t rs) seq else last_read v w rs)
unfolding last_read advance
last_read-advance u t v w seq [] = ground (arith, eq_iff v u, eq_iff w t, eq_iff u v, eq_iff t w)
last_read-advance u t v w seq (r ∷ rs) = ground (
  arith,
  last_read-advance u t v w seq rs,
  eq_iff v u,
  eq_iff w t,
  eq_iff r.user_id u,
  eq_iff r.user_id v,
  eq_iff r.thread_id t,
  eq_iff r.thread_id w,
)

-- No message of a thread is past its greatest seq.
count_past-max_seq :
    (t : String) (seq : ℕ) (ms : List Posted) → max_seq t ms ≤ seq → count_past t seq ms ≡ 0
unfolding count_past max_seq
count_past-max_seq t seq [] h = refl
count_past-max_seq t seq (m ∷ ms) h = ground (arith, count_past-max_seq t seq ms)

-- Advancing a position that covers a thread leaves no message of it unread, and other counts alone.
count-advance :
    (u t v w : String) (seq : ℕ) (rs : List ReadState) (ms : List Posted)
    → max_seq t ms ≤ seq
    → count_past w (last_read v w (advance u t seq rs)) ms
      ≡ (if v == u && w == t then 0 else count_past w (last_read v w rs) ms)
count-advance u t v w seq rs ms h = elim (Bool-cases (v == u && w == t)) [
  | inl y ↦
      let same : w ≡ t = ground (arith, eq_iff w t) in
      rw (last_read-advance u t v w seq rs, y, same) (count_past-max_seq t _ ms (omega arith))
  | inr n ↦ rw (last_read-advance u t v w seq rs, n) refl
]

-- What every run of an upsert does.
abbrev Outcome : (Tables → Tables) → Store → Result StoreError (Unit {0}) × Store → Type 0
Outcome change s (ok u, t) = t.tables ≡ change s.tables
Outcome change s (err e, t) = t.tables ≡ s.tables

exec-Outcome :
    (valid : Tables → Bool) (change : Tables → Tables) (s : Store)
    → Outcome change s (exec valid change s)
unfolding exec
exec-Outcome valid change s = ground arith

-- How marking a channel ends: the user has nothing unread in the channel, the counts of all other
-- users and channels and the tables of the direct messages are as before; or nothing has changed.
abbrev pub MarksChannel : String → String → Store → Result StoreError (Unit {0}) × Store → Type 0
MarksChannel u c s (ok x, t) =
    ((v w : String)
      → unread_in_channel v w t.tables
        ≡ (if v == u && w == c then 0 else unread_in_channel v w s.tables))
    × ((v w : String) → unread_in_dm v w t.tables ≡ unread_in_dm v w s.tables)
MarksChannel u c s (err e, t) = t.tables ≡ s.tables

abbrev pub MarksDm : String → String → Store → Result StoreError (Unit {0}) × Store → Type 0
MarksDm u c s (ok x, t) =
    ((v w : String)
      → unread_in_dm v w t.tables ≡ (if v == u && w == c then 0 else unread_in_dm v w s.tables))
    × ((v w : String) → unread_in_channel v w t.tables ≡ unread_in_channel v w s.tables)
MarksDm u c s (err e, t) = t.tables ≡ s.tables

module _ (u c : String) (s : Store) where
  marked_channel :
      (r : Result StoreError (Unit {0}) × Store)
      → Outcome
          (λ t. record t {
            channel_read_state = advance u c (max_seq c t.channel_messages) t.channel_read_state;
          })
          s
          r
      → MarksChannel u c s r
  marked_channel (ok x, t) h = (
    λ v w.
        ap (unread_in_channel v w) h
        ∙ count-advance u c v w (max_seq c s.tables.channel_messages) s.tables.channel_read_state
            s.tables.channel_messages (omega arith),
    λ v w. ap (unread_in_dm v w) h,
  )
  marked_channel (err e, t) h = h

  marked_dm :
      (r : Result StoreError (Unit {0}) × Store)
      → Outcome
          (λ t. record t { dm_read_state = advance u c (max_seq c t.dm_messages) t.dm_read_state })
          s
          r
      → MarksDm u c s r
  marked_dm (ok x, t) h = (
    λ v w.
        ap (unread_in_dm v w) h
        ∙ count-advance u c v w (max_seq c s.tables.dm_messages) s.tables.dm_read_state
            s.tables.dm_messages (omega arith),
    λ v w. ap (unread_in_channel v w) h,
  )
  marked_dm (err e, t) h = h

  -- MarkChannelRead leaves the user nothing unread in the channel and leaves every other unread
  -- count, of other users, channels and all conversations, as it was; where it fails nothing
  -- changes.
  pub mark_channel_read-MarksChannel : MarksChannel u c s (mark_channel_read u c s)
  unfolding mark_channel_read
  mark_channel_read-MarksChannel = marked_channel _ (exec-Outcome (channel_state_ok u c) _ s)

  -- MarkDMRead leaves the user nothing unread in the conversation and leaves every other unread
  -- count as it was; where it fails nothing changes.
  pub mark_dm_read-MarksDm : MarksDm u c s (mark_dm_read u c s)
  unfolding mark_dm_read
  mark_dm_read-MarksDm = marked_dm _ (exec-Outcome (dm_state_ok u c) _ s)
