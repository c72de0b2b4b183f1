-- ===== src/Notify/Progress.antt =====
-- Read positions over a history of calls.
use constell.Prelude.{
  ℕ, ◌≤◌, String, ◌≡◌, refl, ◌∙◌, inl, inr, Bool, List, [], ◌∷◌, arith, eq_iff, Bool-cases, nat_eq,
  string_eq,
}
use constell.Notify.Store.{
  ReadState, Tables, Store, exec, max_seq, advance, last_read, mark_channel_read, mark_dm_read,
  advance_channel_read, advance_dm_read, channel_state_ok, dm_state_ok,
}
use constell.Notify.Cursors.{last_read-advance}

-- The calls on the store that write.
pub data ReadCall : Type 0 where
  marks_channel marks_dm : String → String → ReadCall
  advances_channel advances_dm : String → String → ℕ → ReadCall

unfoldable pub run : ReadCall → Store → Store
unfolding mark_channel_read mark_dm_read advance_channel_read advance_dm_read
run (marks_channel u c) s = (mark_channel_read u c s).1
run (marks_dm u c) s = (mark_dm_read u c s).1
run (advances_channel u c seq) s = (advance_channel_read u c seq s).1
run (advances_dm u c seq) s = (advance_dm_read u c seq s).1

unfoldable pub run_all : List ReadCall → Store → Store
unfolding run
run_all [] s = s
run_all (c ∷ cs) s = run_all cs (run c s)

-- No position of a user in a channel or a conversation goes back, and no message is touched.
pub record Forward (s t : Tables) : Type 0 where
  pub channels :
      (u c : String) → last_read u c s.channel_read_state ≤ last_read u c t.channel_read_state
  pub dms : (u c : String) → last_read u c s.dm_read_state ≤ last_read u c t.dm_read_state
  pub channel_messages : t.channel_messages ≡ s.channel_messages
  pub dm_messages : t.dm_messages ≡ s.dm_messages

Forward-refl : (s : Tables) → Forward s s
Forward-refl s = record {
  channels = λ u c. omega arith;
  dms = λ u c. omega arith;
  channel_messages = refl;
  dm_messages = refl;
}

Forward-trans : (s t v : Tables) → Forward s t → Forward t v → Forward s v
Forward-trans s t v f g = record {
  channels = λ u c. omega (arith, f.channels u c, g.channels u c);
  dms = λ u c. omega (arith, f.dms u c, g.dms u c);
  channel_messages = g.channel_messages ∙ f.channel_messages;
  dm_messages = g.dm_messages ∙ f.dm_messages;
}

le-advance :
    (u t : String) (seq : ℕ) (rs : List ReadState) (v w : String)
    → last_read v w rs ≤ last_read v w (advance u t seq rs)
le-advance u t seq rs v w = ground (arith, last_read-advance u t v w seq rs, eq_iff v u, eq_iff w t)

exec-Forward :
    (valid : Tables → Bool) (change : Tables → Tables)
    → ((t : Tables) → Forward t (change t))
    → (s : Store) → Forward s.tables (exec valid change s).1.tables
unfolding exec
exec-Forward valid change k s = elim (Bool-cases (s.fails s.statements)) [
  | inl down ↦ rw down (Forward-refl s.tables)
  | inr up ↦ rw up (elim (Bool-cases (valid s.tables)) [
    | inl y ↦ rw y (k s.tables)
    | inr n ↦ rw n (Forward-refl s.tables)
  ])
]

channel-Forward :
    (u c : String) (seq : ℕ) (t : Tables)
    → Forward t (record t { channel_read_state = advance u c seq t.channel_read_state })
channel-Forward u c seq t = record {
  channels = le-advance u c seq t.channel_read_state;
  dms = λ v w. omega arith;
  channel_messages = refl;
  dm_messages = refl;
}

dm-Forward :
    (u c : String) (seq : ℕ) (t : Tables)
    → Forward t (record t { dm_read_state = advance u c seq t.dm_read_state })
dm-Forward u c seq t = record {
  channels = λ v w. omega arith;
  dms = le-advance u c seq t.dm_read_state;
  channel_messages = refl;
  dm_messages = refl;
}

run-Forward : (c : ReadCall) (s : Store) → Forward s.tables (run c s).tables
unfolding run mark_channel_read mark_dm_read advance_channel_read advance_dm_read
run-Forward (marks_channel u c) s =
    exec-Forward (channel_state_ok u c) _
      (λ t. channel-Forward u c (max_seq c t.channel_messages) t) s
run-Forward (marks_dm u c) s =
    exec-Forward (dm_state_ok u c) _ (λ t. dm-Forward u c (max_seq c t.dm_messages) t) s
run-Forward (advances_channel u c seq) s =
    exec-Forward (channel_state_ok u c) _ (channel-Forward u c seq) s
run-Forward (advances_dm u c seq) s = exec-Forward (dm_state_ok u c) _ (dm-Forward u c seq) s

-- Over any sequence of MarkChannelRead, MarkDMRead, AdvanceChannelRead and AdvanceDMRead, failing
-- ones included, no read position of any user goes back and no message is touched.
pub run_all-Forward : (cs : List ReadCall) (s : Store) → Forward s.tables (run_all cs s).tables
unfolding run_all
run_all-Forward [] s = Forward-refl s.tables
run_all-Forward (c ∷ cs) s =
    Forward-trans s.tables (run c s).tables (run_all cs (run c s)).tables (run-Forward c s)
      (run_all-Forward cs (run c s))
