-- ===== src/Community/Repository/Scroll.antt =====
-- A client that scrolls back through a channel: it calls GetChannelMessages with the cursor of the
-- page before, until a page has none.
use constell.Prelude.{
  ℕ, zero, suc, ◌-◌, ◌≤◌, ◌<◌, String, ◌≡◌, refl, sym, ap, ◌∙◌, inl, inr, Bool, true, false, ◌&&◌,
  some, List, [], ◌∷◌, ◌++◌, arith, eq_iff, ltb, if◌then◌else◌, ltb→lt, Bool-cases, ◌==◌, nat_eq,
  string_eq, length, take, drop, get_elem?, keep, All, take-append-drop, take-of_le, All-keep,
}
use constell.Prelude.Exec.{Result, ok, err, Exec}
use constell.Prelude.Decimal.{int64_max, format_int, parse_int, parse_int-format_int}
use constell.Community.Rows.{ChannelMessageRow}
use constell.Sql.{DbError, query}
use constell.Community.Database.{Database, Store}
use constell.Community.Repository.Messages.{messages_page, get_channel_messages}
use constell.Community.Repository.History.{
  Ascending, backwards, history, next_cursor, messages_page_lem, keep_older, keep-backwards,
  Ascending-keep, Descending-backwards, All-get_elem?, All-backwards,
}

prepend :
    List ChannelMessageRow
    → Result DbError (List ChannelMessageRow) × Store
    → Result DbError (List ChannelMessageRow) × Store
prepend front (ok more, s) = (ok (front ++ more), s)
prepend front (err e, s) = (err e, s)

after_page :
    (String → Exec Store DbError (List ChannelMessageRow))
    → Result DbError (List ChannelMessageRow × String) × Store
    → Result DbError (List ChannelMessageRow) × Store
unfolding prepend
after_page rest (err e, s) = (err e, s)
after_page rest (ok (page, next), s) =
    if next == "" then (ok page, s) else prepend page (rest next s)

-- One page after another; `fuel` is the number of requests that the client makes at most.
unfoldable pub scroll : ℕ → String → ℕ → String → Exec Store DbError (List ChannelMessageRow)
unfolding after_page
scroll zero channel_id limit cursor s = (ok [], s)
scroll (suc fuel) channel_id limit cursor s =
    after_page (scroll fuel channel_id limit) (get_channel_messages channel_id limit cursor s)

abbrev pub IsUp : Store → Type 0
IsUp s = (n : ℕ) → s.server.fails n ≡ false

-- Where a client stands: at the start, or after the message with a seq.
data Position : Type 0 where
  start : Position
  after : ℕ → Position

abbrev text : Position → String
text start = ""
text (after n) = format_int n

abbrev before : Position → ChannelMessageRow → Bool
before start m = true
before (after n) m = ltb m.seq n

abbrev Fits : Position → Type 0
Fits start = Unit {0}
Fits (after n) = n ≤ int64_max

abbrev tick : Store → Store
tick s = record s { statements = suc s.statements }

format_int-ne-empty : (n : ℕ) → n ≤ int64_max → (format_int n == "") ≡ false
format_int-ne-empty n h = elim (Bool-cases (format_int n == "")) [
  | inl e ↦ absurd (
      unfold parse_int in
      cc (sym (ap parse_int ((eq_iff (format_int n) "").0 e)) ∙ parse_int-format_int n h))
  | inr e ↦ e
]

get_channel_messages_lem :
    (channel_id : String) (limit : ℕ) (at : Position) (s : Store)
    → IsUp s
    → Fits at
    → get_channel_messages channel_id limit (text at) s
      ≡ (ok (messages_page channel_id limit (before at) s.db), tick s)
unfolding get_channel_messages query
get_channel_messages_lem channel_id limit start s up f = rw (up s.statements)
get_channel_messages_lem channel_id limit (after n) s up f =
    rw (format_int-ne-empty n f, parse_int-format_int n f, up s.statements)

keep-keep :
    (p q r : ChannelMessageRow → Bool) (ms : List ChannelMessageRow)
    → ((m : ChannelMessageRow) → (p m && q m) ≡ r m)
    → keep p (keep q ms) ≡ keep r ms
keep-keep p q r [] h = refl
keep-keep p q r (m ∷ ms) h = ground (arith, h m, keep-keep p q r ms h)

All-kept :
    (p : ChannelMessageRow → Bool) (ms : List ChannelMessageRow) → All (λ m. p m ≡ true) (keep p ms)
All-kept p [] = tt
All-kept p (m ∷ ms) = elim (Bool-cases (p m)) [
  | inl y ↦ rw y (y, All-kept p ms)
  | inr n ↦ rw n (All-kept p ms)
]

before_older :
    (at : Position) (k m : ChannelMessageRow) (channel_id : String)
    → (m.channel_id == channel_id && before at m) ≡ true
    → (ltb k.seq m.seq && (k.channel_id == channel_id && before at k))
      ≡ (k.channel_id == channel_id && ltb k.seq m.seq)
before_older start k m channel_id h = ground arith
before_older (after n) k m channel_id h = ground arith

-- The history after the last message of a page is what the page left out.
history_after :
    (channel_id : String) (limit : ℕ) (at : Position) (db : Database) (m : ChannelMessageRow)
    → Ascending db.channel_messages
    → 0 < limit
    → get_elem? (history channel_id (before at) db) (limit - 1) ≡ some m
    → history channel_id (before (after m.seq)) db ≡ drop limit (history channel_id (before at) db)
history_after channel_id zero at db m asc pos_limit h = absurd (omega arith)
history_after channel_id (suc n) at db m asc pos_limit h =
    let chosen = λ (k : ChannelMessageRow). k.channel_id == channel_id && before at k in
    let rows = keep chosen db.channel_messages in
    let there : (m.channel_id == channel_id && before at m) ≡ true =
      All-get_elem? (λ k. chosen k ≡ true) (suc n - 1) (backwards rows) m
        (All-backwards (λ k. chosen k ≡ true) rows (All-kept chosen db.channel_messages)) h in
    let index : suc n - 1 ≡ n = omega arith in
    sym (
      sym (
        keep_older n (backwards rows) m
          (Descending-backwards rows (Ascending-keep chosen db.channel_messages asc))
          (rw index at h))
      ∙ keep-backwards (λ k. ltb k.seq m.seq) rows
      ∙ ap backwards (
          keep-keep (λ k. ltb k.seq m.seq) chosen _ db.channel_messages
            (λ k. before_older at k m channel_id there)))

get_elem?-some {ℓ} :
    {A : Type ℓ} (i : ℕ) (xs : List A) → i < length xs → (a : A) × (get_elem? xs i ≡ some a)
get_elem?-some i [] h = absurd (omega arith)
get_elem?-some zero (x ∷ xs) h = (x, refl)
get_elem?-some (suc i) (x ∷ xs) h = get_elem?-some i xs (omega arith)

length-drop {ℓ} : {A : Type ℓ} (n : ℕ) (xs : List A) → length (drop n xs) ≡ length xs - n
length-drop zero xs = omega arith
length-drop (suc n) [] = omega arith
length-drop (suc n) (x ∷ xs) = omega (arith, length-drop n xs)

abbrev pub Bounded : Database → Type 0
Bounded db = All (λ m. m.seq ≤ int64_max) db.channel_messages

seq_fits :
    (channel_id : String) (limit : ℕ) (at : Position) (db : Database) (m : ChannelMessageRow)
    → Bounded db
    → get_elem? (history channel_id (before at) db) (limit - 1) ≡ some m
    → m.seq ≤ int64_max
seq_fits channel_id limit at db m b h =
    let chosen = λ (k : ChannelMessageRow). k.channel_id == channel_id && before at k in
    All-get_elem? (λ k. k.seq ≤ int64_max) (limit - 1) _ m
      (All-backwards (λ k. k.seq ≤ int64_max) _
        (All-keep (λ k. k.seq ≤ int64_max) chosen db.channel_messages b))
      h

prepend_lem :
    (front more : List ChannelMessageRow) (r : Result DbError (List ChannelMessageRow) × Store)
    → r.0 ≡ ok more
    → (prepend front r).0 ≡ ok (front ++ more)
unfolding prepend
prepend_lem front more (ok xs, s) h = ground arith
prepend_lem front more (err e, s) h = cc

module _ (channel_id : String) (limit : ℕ) (positive : 0 < limit) where
  scroll_from :
      (fuel : ℕ) (at : Position) (s : Store)
      → IsUp s
      → Fits at
      → Ascending s.db.channel_messages
      → Bounded s.db
      → length (history channel_id (before at) s.db) < fuel
      → (scroll fuel channel_id limit (text at) s).0 ≡ ok (history channel_id (before at) s.db)
  unfolding scroll prepend next_cursor
  scroll_from zero at s up f asc b h = absurd (omega arith)
  scroll_from (suc fuel) at s up f asc b h =
      let rows = history channel_id (before at) s.db in
      elim (Bool-cases (ltb limit (length rows))) [
        | inl more ↦
            let (m, last) = get_elem?-some (limit - 1) rows (ground arith) in
            let fits = seq_fits channel_id limit at s.db m b last in
            let left = history_after channel_id limit at s.db m asc positive last in
            let rest =
              scroll_from fuel (after m.seq) (tick s) up fits asc b (
                rw left (omega (arith, length-drop limit rows, ltb→lt limit (length rows) more))) in
            rw
              (
                get_channel_messages_lem channel_id limit at s up f,
                messages_page_lem channel_id limit (before at) s.db asc positive,
                next_cursor,
                more,
                last,
                format_int-ne-empty m.seq fits,
              )
              (prepend_lem (take limit rows) _ _ rest
                ∙ ap ok (ap (◌++◌ (take limit rows)) left ∙ take-append-drop limit rows))
        | inr all ↦
            rw
              (
                get_channel_messages_lem channel_id limit at s up f,
                messages_page_lem channel_id limit (before at) s.db asc positive,
                next_cursor,
                all,
              )
              (ap ok (take-of_le limit rows (ground arith)))
      ]

  -- Where no statement fails, the messages stand by ascending seq and seqs fit a signed 64-bit
  -- integer, following the cursors of GetChannelMessages from the newest page, for any positive
  -- page size and with more requests allowed than there are messages, returns exactly the
  -- messages of the channel, the newest first.
  pub scroll_complete :
      (fuel : ℕ) (s : Store)
      → IsUp s
      → Ascending s.db.channel_messages
      → Bounded s.db
      → length (history channel_id (λ m. true) s.db) < fuel
      → (scroll fuel channel_id limit "" s).0 ≡ ok (history channel_id (λ m. true) s.db)
  scroll_complete fuel s up asc b h = scroll_from fuel start s up tt asc b h
