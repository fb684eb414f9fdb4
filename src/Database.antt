-- ===== src/Database.antt =====
-- lib/database/database.go: transactions. MySQL, through gorm, gives each statement an answer or an
-- error; a transaction that fails leaves the tables as they were, and what the program does outside
-- of the database meanwhile (Redis, files) is not undone.
pub mod Submissions
pub mod Ranking
pub mod TestCases
use popcon_sc.Prelude.{
  ◌≡◌, ◌≢◌, ◌⊎◌, ◌↔◌, inl, inr, refl, Bool, true, false, Option, none, some, if◌then◌else◌, arith,
}

-- The errors that the code tells apart, and `sql_error` for all others.
pub data DbError : Type 0 where
  already_transaction_begun : DbError
  unknown_contest unknown_problem unknown_submission unknown_ranking_row : DbError
  unknown_language unknown_testcase file_not_found : DbError
  record_not_found duplicate sql_error : DbError
  -- the error made of the value of a panic
  panicked : DbError

-- A value, or an error.
pub data Result (A : Type 0) : Type 0 where
  ok : A → Result A
  err : DbError → Result A

-- How the function of a transaction ends.
pub data Ending : Type 0 where
  returns : Ending
  fails : DbError → Ending
  panics : DbError → Ending

-- What MySQL answers to `Begin` and to `Commit`.
pub record TxHost : Type 0 where
  pub begins : Option DbError
  pub commits : Option DbError

module _ {T O : Type 0} where
  -- `BeginDM`: T is the tables, and O is all else.
  unfoldable pub begin_dm :
      Bool → TxHost → (T → O → Ending × T × O) → T → O → Option DbError × T × O
  begin_dm transaction_started tx f t o =
      if transaction_started then (some already_transaction_begun, t, o) else (elim tx.begins [
        | some e ↦ (some e, t, o)
        | none ↦ elim (f t o).0 [
          | panics e ↦ (some e, t, (f t o).2)
          | fails e ↦ (some e, t, (f t o).2)
          | returns ↦ elim tx.commits [
            | some e ↦ (some e, t, (f t o).2)
            | none ↦ (none, (f t o).1, (f t o).2)
          ]
        ]
      ])

  -- `BeginDMIfNotStarted`.
  unfoldable pub begin_dm_if_not_started :
      Bool → TxHost → (T → O → Ending × T × O) → T → O → Ending × T × O
  unfolding begin_dm
  begin_dm_if_not_started transaction_started tx f t o =
      elim (begin_dm transaction_started tx f t o).0 [
        | none ↦ (
          returns,
          (begin_dm transaction_started tx f t o).1,
          (begin_dm transaction_started tx f t o).2,
        )
        | some e ↦ elim e [
          | already_transaction_begun ↦
              f (begin_dm transaction_started tx f t o).1 (begin_dm transaction_started tx f t o).2
          | other ↦ (
            fails other,
            (begin_dm transaction_started tx f t o).1,
            (begin_dm transaction_started tx f t o).2,
          )
        ]
      ]

  -- Both ends of a transaction, with the tables that it leaves.
  pub begin_dm-cases :
      (started : Bool) (tx : TxHost) (f : T → O → Ending × T × O) (t : T) (o : O)
      → ((begin_dm started tx f t o).0 ≡ none)
          × (started ≡ false)
          × (tx.begins ≡ none)
          × (tx.commits ≡ none)
          × ((f t o).0 ≡ returns)
          × ((begin_dm started tx f t o).1 ≡ (f t o).1)
        ⊎ ((begin_dm started tx f t o).0 ≢ none) × ((begin_dm started tx f t o).1 ≡ t)
  unfolding begin_dm
  begin_dm-cases started tx f t o = ground arith

  begin_dm-succeeds :
      (started : Bool) (tx : TxHost) (f : T → O → Ending × T × O) (t : T) (o : O)
      → started ≡ false
      → tx.begins ≡ none
      → tx.commits ≡ none
      → (f t o).0 ≡ returns
      → (begin_dm started tx f t o).0 ≡ none
  unfolding begin_dm
  begin_dm-succeeds started tx f t o s b c r = rw (s, b, r, c) refl

  -- A transaction is all or nothing: it succeeds exactly if none has begun before, the function
  -- returns, and MySQL begins and commits; if it succeeds, the tables are those of the function, and
  -- in every other case, a panic included, the tables are as before.
  pub begin_dm_atomic :
      (started : Bool) (tx : TxHost) (f : T → O → Ending × T × O) (t : T) (o : O)
      → (((begin_dm started tx f t o).0 ≡ none)
          ↔ ((started ≡ false) × (tx.begins ≡ none) × (tx.commits ≡ none) × ((f t o).0 ≡ returns)))
        × ((begin_dm started tx f t o).0 ≡ none → (begin_dm started tx f t o).1 ≡ (f t o).1)
        × ((begin_dm started tx f t o).0 ≢ none → (begin_dm started tx f t o).1 ≡ t)
  begin_dm_atomic started tx f t o = elim (begin_dm-cases started tx f t o) [
    | inl (e, s, b, c, r, tables) ↦ ((λ h. (s, b, c, r), λ h. e), λ h. tables, λ h. absurd (h e))
    | inr (e, same) ↦ (
      (λ h. absurd (e h), λ (s, b, c, r). begin_dm-succeeds started tx f t o s b c r),
      λ h. absurd (e h),
      λ h. same,
    )
  ]
