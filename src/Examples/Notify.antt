-- ===== src/Examples/Notify.antt =====
-- Unread counts of two users in one channel.
use constell.Prelude.{
  ℕ, ◌≤◌, ◌<◌, min, ◌≡◌, false, List, [], ◌∷◌, nat_eq, string_eq, length, take, drop,
}
use constell.Notify.Store.{Store, mark_channel_read}
use constell.Notify.Service.{get_unread_counts_handler}
use constell.Notify.Cursors.{MarksChannel, mark_channel_read-MarksChannel}
use constell.Notify.Totals.{CountsUnread, get_unread_counts_handler-CountsUnread}
use constell.Notify.Preview.{truncate, truncate_lem}
use constell.Notify.Progress.{
  Forward, marks_channel, advances_channel, marks_dm, run_all, run_all-Forward,
}

abbrev store : Store
store = record {
  fails = λ n. false;
  statements = 0;
  tables = record {
    users = "u" ∷ "v" ∷ [];
    channels = (record { id = "x"; community_id = "c" }) ∷ [];
    community_members =
        (record { community_id = "c"; user_id = "u" })
        ∷ (record { community_id = "c"; user_id = "v" })
        ∷ [];
    channel_messages =
        (record { thread_id = "x"; seq = 1 }) ∷ (record { thread_id = "x"; seq = 4 }) ∷ [];
    channel_read_state = (record { user_id = "v"; thread_id = "x"; last_read_seq = 1 }) ∷ [];
    dm_conversations = (record { id = "d"; user_a_id = "u"; user_b_id = "v" }) ∷ [];
    dm_messages = (record { thread_id = "d"; seq = 2 }) ∷ [];
    dm_read_state = [];
    user_relations = [];
  };
}

mark_channel_read-MarksChannel_example :
    MarksChannel "u" "x" store (mark_channel_read "u" "x" store)
mark_channel_read-MarksChannel_example = mark_channel_read-MarksChannel "u" "x" store

get_unread_counts_handler-CountsUnread_example :
    CountsUnread "u" store (get_unread_counts_handler "u" store)
get_unread_counts_handler-CountsUnread_example = get_unread_counts_handler-CountsUnread "u" store

run_all-Forward_example :
    Forward store.tables
      (run_all
        (marks_channel "u" "x" ∷ advances_channel "v" "x" 0 ∷ marks_dm "v" "d" ∷ [])
        store).tables
run_all-Forward_example =
    run_all-Forward (marks_channel "u" "x" ∷ advances_channel "v" "x" 0 ∷ marks_dm "v" "d" ∷ [])
      store

abbrev six_bytes : List ℕ
six_bytes = 1 ∷ 2 ∷ 3 ∷ 4 ∷ 5 ∷ 6 ∷ []

truncate_lem_example :
    (length (truncate six_bytes 5) ≡ min (length six_bytes) 5)
    × (length six_bytes ≤ 5 → truncate six_bytes 5 ≡ six_bytes)
    × (take 2 (truncate six_bytes 5) ≡ take 2 six_bytes)
    × (5 < length six_bytes → 3 < 5 → drop 2 (truncate six_bytes 5) ≡ 46 ∷ 46 ∷ 46 ∷ [])
    × (5 ≤ 3 → truncate six_bytes 5 ≡ take 5 six_bytes)
truncate_lem_example = truncate_lem six_bytes 5
