-- ===== src/User/Invariant.antt =====
-- What the tables of the user service keep: conversations are between two users in the order of
-- their ids, no pair of users has two, and messages stand by ascending seq.
use constell.Prelude.{
  ℕ, suc, ◌<◌, String, ◌≡◌, refl, ◌∙◌, inl, inr, Bool, true, false, ◌||◌, List, [], ◌∷◌, ◌++◌,
  arith, Bool-cases, nat_eq, string_eq, any, All, All-map, All-append, equal_sym,
}
use constell.Prelude.Exec.{Result, ok, err}
use constell.Prelude.Exec.Keeps.{Keeps}
use constell.Prelude.Order.{less}
use constell.Sql.{DbError, no_rows, constraint, failed, invalid_cursor, message_not_found, Store}
use constell.Sql.Keeps.{Has, OkHas, Keeps-statement, Keeps-query, insert_if-OkHas}
use constell.User.Rows.{DmConversationRow, DmMessageRow, Database}
use constell.User.Repository.Conversations.{
  is_pair, insert_conversation_sql, found_or_insert, get_or_create, get_or_create_conversation,
}
use constell.User.Repository.Messages.{insert_dm_message, insert_dm_message_sql}

abbrev pub IsOrdered : DmConversationRow → Type 0
IsOrdered c = less c.user_a_id c.user_b_id ≡ true

abbrev pub OnePerPair : List DmConversationRow → Type 0
OnePerPair [] = Unit {0}
OnePerPair (c ∷ cs) = (any (is_pair c.user_a_id c.user_b_id) cs ≡ false) × OnePerPair cs

abbrev pub BySeq : List DmMessageRow → Type 0
BySeq [] = Unit {0}
BySeq (m ∷ ms) = All (λ n. m.seq < n.seq) ms × BySeq ms

pub record IsConsistent (db : Database) : Type 0 where
  pub ordered : All IsOrdered db.dm_conversations
  pub single : OnePerPair db.dm_conversations
  pub by_seq : BySeq db.dm_messages
  pub fresh : All (λ m. m.seq < db.next_seq) db.dm_messages

any-append {ℓ} :
    {A : Type ℓ} (p : A → Bool) (xs ys : List A) → any p (xs ++ ys) ≡ (any p xs || any p ys)
any-append p [] ys = refl
any-append p (x ∷ xs) ys = ground (arith, any-append p xs ys)

OnePerPair-snoc :
    (cs : List DmConversationRow) (c : DmConversationRow)
    → any (is_pair c.user_a_id c.user_b_id) cs ≡ false
    → OnePerPair cs
    → OnePerPair (cs ++ c ∷ [])
OnePerPair-snoc [] c h o = (refl, tt)
OnePerPair-snoc (d ∷ ds) c h o = (
  any-append (is_pair d.user_a_id d.user_b_id) ds (c ∷ [])
      ∙ ground (arith, h, o, equal_sym d.user_a_id c.user_a_id, equal_sym d.user_b_id c.user_b_id),
  OnePerPair-snoc ds c (ground (arith, h)) o.1,
)

BySeq-snoc :
    (ms : List DmMessageRow) (m : DmMessageRow)
    → All (λ n. n.seq < m.seq) ms
    → BySeq ms
    → BySeq (ms ++ m ∷ [])
BySeq-snoc [] m h a = (tt, tt)
BySeq-snoc (n ∷ ns) m h a =
    (All-append (λ k. n.seq < k.seq) ns (m ∷ []) a.0 (h.0, tt), BySeq-snoc ns m h.1 a.1)

pub insert_conversation_sql-OkHas :
    (small big : String) (now : ℕ) (id : String) (db : Database)
    → IsConsistent db
    → OkHas IsConsistent (insert_conversation_sql small big now id db)
unfolding insert_conversation_sql
insert_conversation_sql-OkHas small big now id db h = insert_if-OkHas IsConsistent _ _ _ λ y.
    record {
      ordered = All-append IsOrdered db.dm_conversations _ h.ordered (ground arith, tt);
      single = OnePerPair-snoc db.dm_conversations _ (ground arith) h.single;
      by_seq = h.by_seq;
      fresh = h.fresh;
    }

pub insert_dm_message-Keeps :
    (conversation_id sender_id content : String)
    → Keeps (Has IsConsistent) (insert_dm_message conversation_id sender_id content)
unfolding insert_dm_message insert_dm_message_sql
insert_dm_message-Keeps conversation_id sender_id content =
    Keeps-statement IsConsistent _ λ now id db h. insert_if-OkHas IsConsistent _ _ _ λ _. record {
      ordered = h.ordered;
      single = h.single;
      by_seq = BySeq-snoc db.dm_messages _ h.fresh h.by_seq;
      fresh =
          All-append (λ n. n.seq < suc db.next_seq) db.dm_messages _
            (All-map (λ (n : DmMessageRow) (p : n.seq < db.next_seq). omega arith) db.dm_messages
              h.fresh)
            (omega arith, tt);
    }

found_or_insert-Has :
    (small big : String) (r : Result DbError DmConversationRow × Store Database)
    → Has IsConsistent r.1
    → Has IsConsistent (found_or_insert small big r).1
unfolding found_or_insert
found_or_insert-Has small big (ok c, s) h = h
found_or_insert-Has small big (err no_rows, s) h =
    (Keeps-statement IsConsistent (insert_conversation_sql small big)
        (insert_conversation_sql-OkHas small big)).at
      s h
found_or_insert-Has small big (err constraint, s) h = h
found_or_insert-Has small big (err failed, s) h = h
found_or_insert-Has small big (err invalid_cursor, s) h = h
found_or_insert-Has small big (err message_not_found, s) h = h

get_or_create-Keeps : (small big : String) → Keeps (Has IsConsistent) (get_or_create small big)
unfolding get_or_create
get_or_create-Keeps small big = record {
  at = λ s h. found_or_insert-Has small big _ ((Keeps-query IsConsistent _).at s h);
}

pub get_or_create_conversation-Keeps :
    (a b : String) → Keeps (Has IsConsistent) (get_or_create_conversation a b)
unfolding get_or_create_conversation
get_or_create_conversation-Keeps a b = elim (Bool-cases (less b a)) [
  | inl y ↦ rw y (get_or_create-Keeps b a)
  | inr n ↦ rw n (get_or_create-Keeps a b)
]
