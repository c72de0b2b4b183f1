-- ===== src/System/Outcomes.antt =====
-- How a call of a service behind the interceptor ends, in the words of its clients in
-- backend/services/ws-gateway/main.go.
use constell.Prelude.{
  ℕ, String, ◌≡◌, refl, subst, ◌⊎◌, inl, inr, Option, none, some, arith, nat_eq, string_eq,
}
use constell.Prelude.Exec.{Result, ok, err, Exec}
use constell.Rpc.{Code}
use constell.Auth.Interceptor.{or_unauthenticated}
use constell.System.Calls.{Transit, answered, request_lost, reply_lost, call, sent, carry}

-- `P` of the caller and the key of the reply, or `Q` where the call fails.
module _ {S A : Type 0} (key : A → String × ℕ) (P : String → String → ℕ → S → Type 0)
    (Q : S → Type 0) where
  abbrev pub Ends : String → Result Code A × S → Type 0
  Ends caller_id (ok a, t) = P caller_id (key a).0 (key a).1 t
  Ends caller_id (err e, t) = Q t

  abbrev pub Called : Option String → Result Code A × S → Type 0
  Called parsed (ok a, t) =
      (caller_id : String) × (parsed ≡ some caller_id) × P caller_id (key a).0 (key a).1 t
  Called parsed (err e, t) = Q t

  Ends-Called :
      (caller_id : String) (r : Result Code A × S) → Ends caller_id r → Called (some caller_id) r
  Ends-Called caller_id (ok a, t) h = (caller_id, refl, h)
  Ends-Called caller_id (err e, t) h = h

  pub call-Called :
      (parsed : Option String) (handler : String → Exec S Code A) (s : S)
      → Q s
      → ((caller_id : String) → Ends caller_id (handler caller_id s))
      → Called parsed (call (or_unauthenticated parsed) handler s)
  call-Called none handler s refused ends = refused
  call-Called (some caller_id) handler s refused ends =
      Ends-Called caller_id (handler caller_id s) (ends caller_id)

  -- Where the client has an error: the call came to nothing, or its reply was lost.
  abbrev pub Fails : Option String → Transit → S → Type 0
  Fails parsed transit t =
      Q t
      ⊎ ((transit ≡ reply_lost)
          × (caller_id : String) × (id : String) × (seq : ℕ) × (parsed ≡ some caller_id)
          × P caller_id id seq t)

  abbrev pub Arrives : Option String → Transit → String → ℕ → S → Type 0
  Arrives parsed transit id seq t =
      (caller_id : String) × (parsed ≡ some caller_id) × P caller_id id seq t × (transit ≡ answered)

  unanswered :
      (parsed : Option String) (r : Result Code A × S)
      → Called parsed r
      → Fails parsed reply_lost r.1
  unanswered parsed (ok a, t) h = inr (refl, h.0, (key a).0, (key a).1, h.1, h.2)
  unanswered parsed (err e, t) h = inl h

  sent-none :
      (parsed : Option String) (r : Result Code A × S)
      → Called parsed r
      → (sent key r).0 ≡ none
      → Q (sent key r).1
  sent-none parsed (ok a, u) h failed = cc
  sent-none parsed (err e, u) h failed = h

  sent-some :
      (parsed : Option String) (r : Result Code A × S) (id : String) (seq : ℕ)
      → Called parsed r
      → (sent key r).0 ≡ some (id, seq)
      → Arrives parsed answered id seq (sent key r).1
  sent-some parsed (ok a, u) id seq h acked =
      let same : key a ≡ (id, seq) = ground arith in
      (h.0, h.1, subst (λ k. P h.0 k.0 k.1 u) same h.2, refl)
  sent-some parsed (err e, u) id seq h acked = cc

  -- The client's view of a call.
  module _ (parsed : Option String) (handle : S → Result Code A × S) (s : S) (before : Q s)
      (called : Called parsed (handle s)) where
    carry-Fails :
        (transit : Transit)
        → (carry key transit handle s).0 ≡ none
        → Fails parsed transit (carry key transit handle s).1
    carry-Fails answered h = inl (sent-none parsed (handle s) called h)
    carry-Fails request_lost h = inl before
    carry-Fails reply_lost h = unanswered parsed (handle s) called

    carry-Arrives :
        (transit : Transit) (id : String) (seq : ℕ)
        → (carry key transit handle s).0 ≡ some (id, seq)
        → Arrives parsed transit id seq (carry key transit handle s).1
    carry-Arrives answered id seq h = sent-some parsed (handle s) id seq called h
    carry-Arrives request_lost id seq h = cc
    carry-Arrives reply_lost id seq h = cc

    pub carry-none :
        (transit : Transit) (t : S)
        → (carry key transit handle s).0 ≡ none
        → (carry key transit handle s).1 ≡ t
        → Fails parsed transit t
    carry-none transit t h left = subst (Fails parsed transit) left (carry-Fails transit h)

    pub carry-some :
        (transit : Transit) (id : String) (seq : ℕ) (t : S)
        → (carry key transit handle s).0 ≡ some (id, seq)
        → (carry key transit handle s).1 ≡ t
        → Arrives parsed transit id seq t
    carry-some transit id seq t h left =
        subst (Arrives parsed transit id seq) left (carry-Arrives transit id seq h)
