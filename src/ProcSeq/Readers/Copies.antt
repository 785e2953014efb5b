-- ===== src/ProcSeq/Readers/Copies.antt =====
-- What the readers write.
use linux_learning_by_doing.Prelude.{
  ℕ, zero, suc, ◌≤◌, ◌≡◌, refl, sym, ap, ◌∙◌, none, some, List, [], ◌∷◌, ◌++◌, append_assoc,
  append-nil, length, length-append, arith,
}
use linux_learning_by_doing.ProcSeq.Readers.{
  ReadFile, Exit, copy_once, copy_rest, main_test, main_test1, Gives,
}

module _ {State : Type 0} (read_11 : ReadFile State) where
  copy_once-some :
      (s s' : State) (written bytes : List ℕ)
      → read_11 s ≡ (some bytes, s')
      → copy_once read_11 s written ≡ (s', written ++ bytes)
  unfolding copy_once
  copy_once-some s s' written bytes e = rw e refl

  copy_once-none :
      (s : State) (written : List ℕ)
      → read_11 s ≡ (none, s)
      → copy_once read_11 s written ≡ (s, written)
  unfolding copy_once
  copy_once-none s written e = rw e refl

  main_test_lem :
      (fuel : ℕ) (s s1 s2 : State) (out1 out2 : List ℕ)
      → copy_once read_11 s [] ≡ (s1, out1)
      → copy_once read_11 s1 out1 ≡ (s2, out2)
      → main_test read_11 fuel (some s) ≡ copy_rest read_11 fuel s2 out2
  unfolding main_test
  main_test_lem fuel s s1 s2 out1 out2 c1 c2 =
      ap
        (λ (p : State × List ℕ).
          let q = copy_once read_11 p.0 p.1 in copy_rest read_11 fuel q.0 q.1)
        c1
      ∙ ap (λ (q : State × List ℕ). copy_rest read_11 fuel q.0 q.1) c2

  main_test1_lem :
      (s s1 s2 : State) (out1 out2 : List ℕ)
      → copy_once read_11 s [] ≡ (s1, out1)
      → copy_once read_11 s1 out1 ≡ (s2, out2)
      → main_test1 read_11 (some s) ≡ record { written = out2; status = 0 }
  unfolding main_test1
  main_test1_lem s s1 s2 out1 out2 c1 c2 =
      ap
        (λ (p : State × List ℕ).
          let q = copy_once read_11 p.0 p.1 in record { written = q.1; status = 0 })
        c1
      ∙ ap (λ (q : State × List ℕ). record { written = q.1; status = 0 }) c2

  copy_rest-end :
      (fuel : ℕ) (s s' : State) (written : List ℕ)
      → read_11 s ≡ (some [], s')
      → copy_rest read_11 (suc fuel) s written ≡ some (record { written = written; status = 0 })
  unfolding copy_rest
  copy_rest-end fuel s s' written e = rw (copy_rest, ap (λ r. r.0) e) refl

  copy_rest-more :
      (fuel : ℕ) (s s' : State) (written : List ℕ) (b : ℕ) (bs : List ℕ)
      → read_11 s ≡ (some (b ∷ bs), s')
      → copy_rest read_11 (suc fuel) s written ≡ copy_rest read_11 fuel s' (written ++ (b ∷ bs))
  unfolding copy_rest
  copy_rest-more fuel s s' written b bs e =
      rw (copy_rest, ap (λ r. r.0) e)
        (ap (λ u. copy_rest read_11 fuel u (written ++ (b ∷ bs))) (ap (λ r. r.1) e))

  copy_rest-fails :
      (fuel : ℕ) (s : State) (written : List ℕ)
      → read_11 s ≡ (none, s)
      → copy_rest read_11 fuel s written ≡ none
  unfolding copy_rest
  copy_rest-fails zero s written e = refl
  copy_rest-fails (suc fuel) s written e =
      rw (copy_rest, ap (λ r. r.0) e)
        (ap (λ u. copy_rest read_11 fuel u written) (ap (λ r. r.1) e)
          ∙ copy_rest-fails fuel s written e)

  module _ (Holds : State → List ℕ → Type 0) where
    -- With so much fuel, what is left of the text is written.
    abbrev Copies : ℕ → Type 0
    Copies fuel =
        (s : State) (text written : List ℕ)
        → Holds s text
        → suc (length text) ≤ fuel
        → copy_rest read_11 fuel s written ≡ some (record { written = written ++ text; status = 0 })

    chunk-Copies :
        (fuel : ℕ) (s s' : State) (text written bytes rest : List ℕ)
        → Copies fuel
        → read_11 s ≡ (some bytes, s')
        → Holds s' rest
        → text ≡ bytes ++ rest
        → (bytes ≡ [] → text ≡ [])
        → suc (length text) ≤ suc fuel
        → copy_rest read_11 (suc fuel) s written
          ≡ some (record { written = written ++ text; status = 0 })
    chunk-Copies fuel s s' text written [] rest ih e h' t stop le =
        rw (stop refl, append-nil written) (copy_rest-end fuel s s' written e)
    chunk-Copies fuel s s' text written (b ∷ bs) rest ih e h' t stop le =
        copy_rest-more fuel s s' written b bs e
        ∙ ih s' rest (written ++ (b ∷ bs)) h' (omega (arith, ap length t, length-append bs rest))
        ∙ ap (λ w. some (record { written = w; status = 0 }))
            (append_assoc written (b ∷ bs) rest ∙ ap (λ r. written ++ r) (sym t))

    copy_rest-Copies : Gives read_11 Holds → (fuel : ℕ) → Copies fuel
    copy_rest-Copies g zero s text written h le = absurd (omega arith)
    copy_rest-Copies g (suc fuel) s text written h le =
        let (bytes, rest, s', e, h', t, few, stop) = g.gives s text h in
        chunk-Copies fuel s s' text written bytes rest (copy_rest-Copies g fuel) e h' t stop le

-- Reading a file that gives its text in pieces of at most 11 bytes, in whatever sizes: proc_seq_test.c
-- ends, with calls for one more than the bytes of the text, and has written the whole text once, in
-- order; proc_seq_test1.c has written at most the first 22 bytes of it.
pub readers_copy :
    {State : Type 0} (read_11 : ReadFile State) (Holds : State → List ℕ → Type 0) (s : State)
    (text : List ℕ) (fuel : ℕ)
    → Gives read_11 Holds
    → Holds s text
    → suc (length text) ≤ fuel
    → (main_test read_11 fuel (some s) ≡ some (record { written = text; status = 0 }))
      × ((rest : List ℕ) × (text ≡ (main_test1 read_11 (some s)).written ++ rest)
          × (length (main_test1 read_11 (some s)).written ≤ 22))
readers_copy read_11 Holds s text fuel g h le =
    let (bytes1, rest1, s1, e1, h1, t1, few1, stop1) = g.gives s text h in
    let (bytes2, rest2, s2, e2, h2, t2, few2, stop2) = g.gives s1 rest1 h1 in
    let c1 = copy_once-some read_11 s s1 [] bytes1 e1 in
    let c2 = copy_once-some read_11 s1 s2 bytes1 bytes2 e2 in
    let whole : text ≡ bytes1 ++ bytes2 ++ rest2 =
      t1 ∙ ap (λ r. bytes1 ++ r) t2 ∙ sym (append_assoc bytes1 bytes2 rest2) in
    let out : (main_test1 read_11 (some s)).written ≡ bytes1 ++ bytes2 =
      ap Exit.written (main_test1_lem read_11 s s1 s2 bytes1 (bytes1 ++ bytes2) c1 c2) in
    (
      main_test_lem read_11 fuel s s1 s2 bytes1 (bytes1 ++ bytes2) c1 c2
          ∙ copy_rest-Copies read_11 Holds g fuel s2 rest2 (bytes1 ++ bytes2) h2
              (omega (arith, le, ap length whole, length-append (bytes1 ++ bytes2) rest2))
          ∙ ap (λ w. some (record { written = w; status = 0 })) (sym whole),
      (
        rest2,
        whole ∙ ap (λ o. o ++ rest2) (sym out),
        omega (arith, few1, few2, ap length out, length-append bytes1 bytes2),
      ),
    )

-- A `read` that goes on failing: proc_seq_test.c never comes to its exit, however long it runs, as it
-- takes only the answer 0 for an end.
pub failing_read_spins :
    {State : Type 0} (read_11 : ReadFile State) (s : State) (fuel : ℕ)
    → read_11 s ≡ (none, s)
    → main_test read_11 fuel (some s) ≡ none
failing_read_spins read_11 s fuel e =
    main_test_lem read_11 fuel s s s [] [] (copy_once-none read_11 s [] e)
      (copy_once-none read_11 s [] e)
    ∙ copy_rest-fails read_11 fuel s [] e
