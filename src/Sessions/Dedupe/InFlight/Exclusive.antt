-- ===== src/Sessions/Dedupe/InFlight/Exclusive.antt =====
-- No two pushes of one key run at the same time, as long as no clear comes in between.
use citrineos_ocpi.Prelude.{
  ℕ, String, ◌≡◌, refl, ◌≢◌, ◌∙◌, sym, ap, Bool, true, false, ◌||◌, Option, none, some, List, [],
  ◌∷◌, arith, eq_iff, str_eq, if◌then◌else◌, ◌⧺◌, All, Distinct, map, subst, Bool-cases, inl, inr,
}
use citrineos_ocpi.Sessions.Dedupe.{
  Texts, Dedupe, empty, has, has_prefix, remove, should_broadcast, mark_in_flight, mark_sent,
  mark_failed, clear,
}
use citrineos_ocpi.Sessions.Dedupe.Lifecycle.{has-add, has-remove, has-clear_set}
use citrineos_ocpi.Sessions.Dedupe.InFlight.{
  Push, Broadcasts, Event, begins, ends, clears, key_of, settle, without, nth, begin, end_found,
  end, cleared, run,
}

absent_All : (k : String) (s : List String) → has k s ≡ false → All (λ j. j ≢ k) s
unfolding has
absent_All k [] h = tt
absent_All k (j ∷ s) h = (λ e. ground (arith, (eq_iff j k).1 e), absent_All k s (ground arith))

All-absent : (k : String) (s : List String) → All (λ j. j ≢ k) s → has k s ≡ false
unfolding has
All-absent k [] h = refl
All-absent k (j ∷ s) h = elim (Bool-cases (str_eq j k)) [
  | inl e ↦ absurd (h.0 ((eq_iff j k).0 e))
  | inr e ↦ rw e (All-absent k s h.1)
]

module _ (texts : Texts) where
  -- The keys of the running pushes differ, and exactly they are marked as in flight.
  pub record IsExclusive (b : Broadcasts) : Type 0 where
    pub one_per_key : Distinct (map (key_of texts) b.running)
    pub marked : (k : String) → has k b.dedupe.in_flight ≡ has k (map (key_of texts) b.running)

  -- No running push has a key that starts with the id of the transaction and a colon.
  abbrev pub IsIdle : String → Broadcasts → Type 0
  IsIdle tx b = All (λ k. has_prefix k (tx ⧺ ":") ≡ false) (map (key_of texts) b.running)

  -- Each transaction is cleared only while none of its pushes runs.
  abbrev pub ClearsIdle : List Event → Broadcasts → Type 0
  ClearsIdle [] b = Unit
  ClearsIdle (begins p ∷ es) b = ClearsIdle es (begin texts p b)
  ClearsIdle (ends n ok ∷ es) b = ClearsIdle es (end texts n ok b)
  ClearsIdle (clears tx ∷ es) b = IsIdle tx b × ClearsIdle es (cleared texts tx b)

  absent_prefixed :
      (prefix k : String) (ks : List String)
      → has_prefix k prefix ≡ true
      → All (λ j. has_prefix j prefix ≡ false) ks
      → has k ks ≡ false
  unfolding has
  absent_prefixed prefix k [] e h = refl
  absent_prefixed prefix k (j ∷ ks) e h = elim (Bool-cases (str_eq j k)) [
    | inl same ↦
        absurd (cc (subst (λ x. has_prefix x prefix ≡ true) (sym ((eq_iff j k).0 same)) e, h.0))
    | inr other ↦ rw other (absent_prefixed prefix k ks e h.1)
  ]

  cleared-IsExclusive :
      (tx : String) (b : Broadcasts)
      → IsIdle tx b
      → IsExclusive b
      → IsExclusive (cleared texts tx b)
  unfolding clear
  cleared-IsExclusive tx b idle ex = record {
    one_per_key = ex.one_per_key;
    marked = λ k.
        has-clear_set (tx ⧺ ":") k b.dedupe.in_flight
        ∙ elim (Bool-cases (has_prefix k (tx ⧺ ":"))) [
          | inl e ↦ rw e (sym (absent_prefixed (tx ⧺ ":") k (map (key_of texts) b.running) e idle))
          | inr e ↦ rw e (ex.marked k)
        ];
  }

  nth-differs :
      (n : ℕ) (p : Push) (ps : List Push) (k : String)
      → nth texts n ps ≡ some p
      → All (λ j. j ≢ k) (map (key_of texts) ps)
      → key_of texts p ≢ k
  nth-differs n p [] k found h = absurd (ground arith)
  nth-differs ℕ.zero p (q ∷ ps) k found h =
      subst (λ o. elim o [ none ↦ Unit | some r ↦ key_of texts r ≢ k ]) found h.0
  nth-differs (ℕ.suc n) p (q ∷ ps) k found h = nth-differs n p ps k found h.1

  has-without :
      (n : ℕ) (p : Push) (ps : List Push) (k : String)
      → nth texts n ps ≡ some p
      → Distinct (map (key_of texts) ps)
      → has k (map (key_of texts) (without texts n ps))
        ≡ (if str_eq (key_of texts p) k then false else has k (map (key_of texts) ps))
  unfolding has
  has-without n p [] k found d = ground arith
  has-without ℕ.zero p (q ∷ ps) k found d =
      subst
        (λ o. has k (map (key_of texts) ps) ≡ (
          if elim o [ none ↦ false | some r ↦ str_eq (key_of texts r) k ]
          then false
          else (str_eq (key_of texts q) k || has k (map (key_of texts) ps))))
        found ground
        (arith, eq_iff (key_of texts q) k, All-absent (key_of texts q) (map (key_of texts) ps) d.0)
  has-without (ℕ.suc n) p (q ∷ ps) k found d = ground (
    arith,
    eq_iff (key_of texts p) k,
    eq_iff (key_of texts q) k,
    has-without n p ps k found d.1,
    nth-differs n p ps (key_of texts q) found d.0,
  )

  All-without :
      (n : ℕ) (ps : List Push) (k : String)
      → All (λ j. j ≢ k) (map (key_of texts) ps)
      → All (λ j. j ≢ k) (map (key_of texts) (without texts n ps))
  All-without n [] k h = tt
  All-without ℕ.zero (p ∷ ps) k h = h.1
  All-without (ℕ.suc n) (p ∷ ps) k h = (h.0, All-without n ps k h.1)

  Distinct-without :
      (n : ℕ) (ps : List Push)
      → Distinct (map (key_of texts) ps)
      → Distinct (map (key_of texts) (without texts n ps))
  Distinct-without n [] d = tt
  Distinct-without ℕ.zero (p ∷ ps) d = d.1
  Distinct-without (ℕ.suc n) (p ∷ ps) d =
      (All-without n ps (key_of texts p) d.0, Distinct-without n ps d.1)

  not_in_flight :
      (d : Dedupe) (p : Push)
      → should_broadcast texts d p.transaction_id p.partner_id p.method p.body ≡ true
      → has (key_of texts p) d.in_flight ≡ false
  unfolding should_broadcast
  not_in_flight d p h = ground arith

  begun :
      (p : Push) (b : Broadcasts)
      → IsExclusive b
      → has (key_of texts p) b.dedupe.in_flight ≡ false
      → IsExclusive (record {
        dedupe = mark_in_flight texts b.dedupe p.transaction_id p.partner_id p.method;
        running = p ∷ b.running;
      })
  unfolding mark_in_flight has
  begun p b ex free = record {
    one_per_key = (
      absent_All (key_of texts p) (map (key_of texts) b.running)
          (sym (ex.marked (key_of texts p)) ∙ free),
      ex.one_per_key,
    );
    marked = λ k. ground (arith, has-add (key_of texts p) k b.dedupe.in_flight, ex.marked k);
  }

  begin-IsExclusive : (p : Push) (b : Broadcasts) → IsExclusive b → IsExclusive (begin texts p b)
  unfolding begin
  begin-IsExclusive p b ex =
      let wanted = should_broadcast texts b.dedupe p.transaction_id p.partner_id p.method p.body in
      elim (Bool-cases wanted) [
        | inl e ↦ rw e (begun p b ex (not_in_flight b.dedupe p e))
        | inr e ↦ rw e ex
      ]

  settle-in_flight :
      (good : Bool) (p : Push) (d : Dedupe)
      → (settle texts good p d).in_flight ≡ remove (key_of texts p) d.in_flight
  unfolding mark_sent mark_failed
  settle-in_flight true p d = refl
  settle-in_flight false p d = refl

  ended :
      (n : ℕ) (good : Bool) (b : Broadcasts) (o : Option Push)
      → nth texts n b.running ≡ o
      → IsExclusive b
      → IsExclusive (end_found texts o n good b)
  ended n good b none found ex = ex
  ended n good b (some p) found ex = record {
    one_per_key = Distinct-without n b.running ex.one_per_key;
    marked = λ k.
        ap (has k) (settle-in_flight good p b.dedupe)
        ∙ ground (
          arith,
          has-remove (key_of texts p) k b.dedupe.in_flight,
          has-without n p b.running k found ex.one_per_key,
          ex.marked k,
        );
  }

  end-IsExclusive :
      (n : ℕ) (good : Bool) (b : Broadcasts) → IsExclusive b → IsExclusive (end texts n good b)
  unfolding end
  end-IsExclusive n good b ex = ended n good b (nth texts n b.running) refl ex

  run_from-IsExclusive :
      (es : List Event) (b : Broadcasts)
      → ClearsIdle es b
      → IsExclusive b
      → IsExclusive (run texts es b)
  unfolding run
  run_from-IsExclusive [] b idle ex = ex
  run_from-IsExclusive (begins p ∷ es) b idle ex =
      run_from-IsExclusive es (begin texts p b) idle (begin-IsExclusive p b ex)
  run_from-IsExclusive (ends n good ∷ es) b idle ex =
      run_from-IsExclusive es (end texts n good b) idle (end-IsExclusive n good b ex)
  run_from-IsExclusive (clears tx ∷ es) b idle ex =
      run_from-IsExclusive es (cleared texts tx b) idle.1 (cleared-IsExclusive tx b idle.0 ex)

  abbrev pub started : Broadcasts
  started = record { dedupe = empty; running = [] }

  -- In any order of beginnings and ends of broadcasts and of clears of transactions, from the start of
  -- the service, where no transaction is cleared while a push whose key starts with its id and a colon
  -- runs: no two pushes with the same transaction, partner and method run at the same time, and a key
  -- counts as in flight exactly while its push runs.
  pub run-IsExclusive :
      (es : List Event) → ClearsIdle es started → IsExclusive (run texts es started)
  unfolding has
  run-IsExclusive es idle =
      run_from-IsExclusive es started idle (record { one_per_key = tt; marked = λ k. refl })
