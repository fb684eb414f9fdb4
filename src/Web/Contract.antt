-- ===== src/Web/Contract.antt =====
-- ppweb: what a handler guarantees of its calls, if it may rely on something about the answers.
use popcon_sc.Prelude.{ℤ, ◌≤ℤ◌, ◌≡◌, refl, Bool, true, false, Option, none, some, List, ◌∷◌, All}
use popcon_sc.Database.{DbError, Result, ok, err}
use popcon_sc.Web.Handler.{Call, time_now, Answer, Error}
use popcon_sc.Web.Reply.{
  Response, Handler, give, reply, call, ◌>>=◌, guard, expect, expect_nil, some_or, Host, run,
}

-- No clock is read that is behind the time of the request.
abbrev pub Later : ℤ → (c : Call) → Answer c → Type 0
Later t time_now now = t ≤ℤ now
Later t _ a = Unit

module _ (guarantee : Call → Bool) (Rely : (c : Call) → Answer c → Type 0) where
  -- On every path every call is as it should be, and a value that the handler gives has a property.
  abbrev pub Ensures : {A : Type 0} → (A → Type 0) → Handler A → Type 0
  Ensures Q (give a) = Q a
  Ensures Q (reply r) = Unit
  Ensures Q (call c k) = (guarantee c ≡ true) × ((a : Answer c) → Rely c a → Ensures Q (k a))

  pub Ensures->>= :
      {A B : Type 0} (Q : A → Type 0) (R : B → Type 0) (m : Handler A) (f : A → Handler B)
      → Ensures Q m
      → ((a : A) → Q a → Ensures R (f a))
      → Ensures R (m >>= f)
  Ensures->>= Q R (give a) f p q = q a p
  Ensures->>= Q R (reply r) f p q = tt
  Ensures->>= Q R (call c k) f p q = (p.0, λ a h. Ensures->>= Q R (k a) f (p.1 a h) q)

  -- What stands behind a guard may use its condition, and behind a test for an error the value.
  pub Ensures-guard :
      {B : Type 0} (R : B → Type 0) (b : Bool) (r : Response) (h : Handler B)
      → (b ≡ true → Ensures R h)
      → Ensures R (guard b r >>= λ u. h)
  Ensures-guard R true r h q = q refl
  Ensures-guard R false r h q = tt

  pub Ensures-expect :
      {A B : Type 0} (R : B → Type 0) (r : DbError → Response) (x : Result A) (f : A → Handler B)
      → ((a : A) → Ensures R (f a))
      → Ensures R (expect r x >>= f)
  Ensures-expect R r (ok a) f q = q a
  Ensures-expect R r (err e) f q = tt

  pub Ensures-expect_nil :
      {B : Type 0} (R : B → Type 0) (r : DbError → Response) (x : Error) (h : Handler B)
      → Ensures R h
      → Ensures R (expect_nil r x >>= λ u. h)
  Ensures-expect_nil R r none h q = q
  Ensures-expect_nil R r (some e) h q = tt

  pub Ensures-some_or :
      {A B : Type 0} (R : B → Type 0) (r : Response) (x : Option A) (f : A → Handler B)
      → ((a : A) → Ensures R (f a))
      → Ensures R (some_or r x >>= f)
  Ensures-some_or R r (some a) f q = q a
  Ensures-some_or R r none f q = tt

  pub Ensures-run :
      (host : Host) (past : List Call) (h : Handler Unit)
      → ((before : List Call) (c : Call) → Rely c (host before c))
      → Ensures (λ a. Unit) h
      → All (λ c. guarantee c ≡ true) (run host past h).0
  Ensures-run host past (give a) rely p = tt
  Ensures-run host past (reply r) rely p = tt
  Ensures-run host past (call c k) rely p =
      (p.0, Ensures-run host (c ∷ past) (k (host past c)) rely (p.1 (host past c) (rely past c)))
