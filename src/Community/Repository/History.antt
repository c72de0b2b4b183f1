-- ===== src/Community/Repository/History.antt =====
-- The order of a channel's history, and the rows that one page of GetChannelMessages holds.
use constell.Prelude.{
  All-append, ℕ, zero, suc, ◌+◌, ◌-◌, ◌≤◌, ◌<◌, String, ◌≡◌, refl, subst, inl, inr, Bool, true,
  false, ◌&&◌, some, List, [], ◌∷◌, ◌++◌, arith, ltb, leb, if◌then◌else◌, lt→ltb, Bool-cases, ◌==◌,
  nat_eq, string_eq, length, take, drop, get_elem?, keep, All, length-take, take-of_le, All-map,
  All-keep, take-take,
}
use mathlib.Core.List.{append-nil}
use constell.Community.Rows.{ChannelMessageRow}
use constell.Sql.{insert_by, page_of, cursor_of}
use constell.Community.Database.{Database}
use constell.Community.Repository.Messages.{newest_first, messages_page, seq_cursor}

-- The table lists its messages by ascending seq, as they were inserted.
abbrev pub Ascending : List ChannelMessageRow → Type 0
Ascending [] = Unit {0}
Ascending (m ∷ ms) = All (λ n. m.seq < n.seq) ms × Ascending ms

abbrev pub Descending : List ChannelMessageRow → Type 0
Descending [] = Unit {0}
Descending (m ∷ ms) = All (λ n. n.seq < m.seq) ms × Descending ms

abbrev pub backwards : List ChannelMessageRow → List ChannelMessageRow
backwards [] = []
backwards (m ∷ ms) = backwards ms ++ m ∷ []

pub All-backwards :
    (P : ChannelMessageRow → Type 0) (xs : List ChannelMessageRow) → All P xs → All P (backwards xs)
All-backwards P [] h = tt
All-backwards P (x ∷ xs) h = All-append P (backwards xs) (x ∷ []) (All-backwards P xs h.1) (h.0, tt)

-- A message older than all others goes last.
insert_oldest :
    (m : ChannelMessageRow) (ms : List ChannelMessageRow)
    → All (λ n. m.seq < n.seq) ms
    → insert_by (λ a b. leb b.seq a.seq) m ms ≡ ms ++ m ∷ []
unfolding insert_by
insert_oldest m [] h = refl
insert_oldest m (n ∷ ns) h =
    let later : leb n.seq m.seq ≡ false = ground arith in rw (later, insert_oldest m ns h.1)

pub newest_first-backwards :
    (ms : List ChannelMessageRow) → Ascending ms → newest_first ms ≡ backwards ms
unfolding newest_first
newest_first-backwards [] h = refl
newest_first-backwards (m ∷ ms) h =
    rw (newest_first-backwards ms h.1)
      (insert_oldest m (backwards ms) (All-backwards (λ n. m.seq < n.seq) ms h.0))

keep-append :
    (p : ChannelMessageRow → Bool) (xs ys : List ChannelMessageRow)
    → keep p (xs ++ ys) ≡ keep p xs ++ keep p ys
keep-append p [] ys = refl
keep-append p (x ∷ xs) ys = ground (arith, keep-append p xs ys)

pub keep-backwards :
    (p : ChannelMessageRow → Bool) (ms : List ChannelMessageRow)
    → keep p (backwards ms) ≡ backwards (keep p ms)
keep-backwards p [] = refl
keep-backwards p (m ∷ ms) =
    rw (keep-append p (backwards ms) (m ∷ []), keep-backwards p ms)
      (elim (Bool-cases (p m)) [ inl y ↦ rw y | inr n ↦ rw (n, append-nil) ])

pub Ascending-keep :
    (p : ChannelMessageRow → Bool) (ms : List ChannelMessageRow)
    → Ascending ms
    → Ascending (keep p ms)
Ascending-keep p [] h = tt
Ascending-keep p (m ∷ ms) h = elim (Bool-cases (p m)) [
  | inl y ↦ rw y (All-keep (λ n. m.seq < n.seq) p ms h.0, Ascending-keep p ms h.1)
  | inr n ↦ rw n (Ascending-keep p ms h.1)
]

Descending-snoc :
    (ms : List ChannelMessageRow) (m : ChannelMessageRow)
    → All (λ n. m.seq < n.seq) ms
    → Descending ms
    → Descending (ms ++ m ∷ [])
Descending-snoc [] m h d = (tt, tt)
Descending-snoc (n ∷ ns) m h d =
    (All-append (λ k. k.seq < n.seq) ns (m ∷ []) d.0 (h.0, tt), Descending-snoc ns m h.1 d.1)

pub Descending-backwards : (ms : List ChannelMessageRow) → Ascending ms → Descending (backwards ms)
Descending-backwards [] h = tt
Descending-backwards (m ∷ ms) h =
    Descending-snoc (backwards ms) m (All-backwards (λ n. m.seq < n.seq) ms h.0)
      (Descending-backwards ms h.1)

keep_none :
    (p : ChannelMessageRow → Bool) (ms : List ChannelMessageRow)
    → All (λ n. p n ≡ true) ms
    → keep p ms ≡ ms
keep_none p [] h = refl
keep_none p (m ∷ ms) h = rw (h.0, keep_none p ms h.1)

pub All-get_elem? :
    (P : ChannelMessageRow → Type 0) (n : ℕ) (ms : List ChannelMessageRow) (m : ChannelMessageRow)
    → All P ms
    → get_elem? ms n ≡ some m
    → P m
All-get_elem? P n [] m a h = cc
All-get_elem? P zero (x ∷ xs) m a h = subst P (ground arith) a.0
All-get_elem? P (suc n) (x ∷ xs) m a h = All-get_elem? P n xs m a.1 h

-- What is older than the n-th message of a history is what follows it.
pub keep_older :
    (n : ℕ) (ms : List ChannelMessageRow) (m : ChannelMessageRow)
    → Descending ms
    → get_elem? ms n ≡ some m
    → keep (λ k. ltb k.seq m.seq) ms ≡ drop (suc n) ms
keep_older n [] m d h = cc
keep_older zero (x ∷ xs) m d h =
    let same : m.seq ≡ x.seq = ground arith in
    let self : ltb x.seq m.seq ≡ false = ground arith in
    rw self (
      keep_none (λ k. ltb k.seq m.seq) xs
        (All-map (λ (k : ChannelMessageRow) (p : k.seq < x.seq). lt→ltb k.seq m.seq (omega arith))
          xs d.0))
keep_older (suc n) (x ∷ xs) m d h =
    let below : m.seq < x.seq = All-get_elem? (λ k. k.seq < x.seq) n xs m d.0 h in
    let newer : ltb x.seq m.seq ≡ false = ground arith in rw newer (keep_older n xs m d.1 h)

-- The rows that a condition on seq leaves of a channel's history.
abbrev pub history : String → (ChannelMessageRow → Bool) → Database → List ChannelMessageRow
history channel_id before db =
    backwards (keep (λ m. m.channel_id == channel_id && before m) db.channel_messages)

unfoldable pub next_cursor : ℕ → List ChannelMessageRow → String
next_cursor limit rows =
    if ltb limit (length rows) then cursor_of seq_cursor (get_elem? rows (limit - 1)) else ""

get_elem?-take {ℓ} :
    {A : Type ℓ} (n i : ℕ) (xs : List A) → i < n → get_elem? (take n xs) i ≡ get_elem? xs i
get_elem?-take zero i xs h = absurd (omega arith)
get_elem?-take (suc n) i [] h = refl
get_elem?-take (suc n) zero (x ∷ xs) h = refl
get_elem?-take (suc n) (suc i) (x ∷ xs) h = get_elem?-take n i xs (omega arith)

page_of_peek :
    (limit : ℕ) (rows : List ChannelMessageRow)
    → 0 < limit
    → page_of seq_cursor limit (take (limit + 1) rows) ≡ (take limit rows, next_cursor limit rows)
unfolding page_of next_cursor
page_of_peek limit rows h = elim (Bool-cases (ltb limit (length rows))) [
  | inl more ↦
      let peeked : ltb limit (length (take (limit + 1) rows)) ≡ true =
        ground (arith, length-take (limit + 1) rows) in
      rw (
        peeked,
        more,
        take-take limit (limit + 1) rows (omega arith),
        get_elem?-take (limit + 1) (limit - 1) rows (omega arith),
      )
  | inr all ↦
      let short : length rows ≤ limit = ground arith in
      let whole : take (limit + 1) rows ≡ rows = take-of_le (limit + 1) rows (omega arith) in
      rw (whole, all, take-of_le limit rows short)
]

-- A page is the front of the history, and its cursor names the page's last message where more
-- messages follow.
pub messages_page_lem :
    (channel_id : String) (limit : ℕ) (before : ChannelMessageRow → Bool) (db : Database)
    → Ascending db.channel_messages
    → 0 < limit
    → messages_page channel_id limit before db ≡ (
      take limit (history channel_id before db),
      next_cursor limit (history channel_id before db),
    )
unfolding messages_page
messages_page_lem channel_id limit before db asc h =
    let rows = keep (λ m. m.channel_id == channel_id && before m) db.channel_messages in
    rw
      (newest_first-backwards rows
        (Ascending-keep (λ m. m.channel_id == channel_id && before m) db.channel_messages asc))
      (page_of_peek limit (backwards rows) h)
