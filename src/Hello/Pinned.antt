-- ===== src/Hello/Pinned.antt =====
-- hello1.c can be loaded, and not unloaded.
use linux_learning_by_doing.Prelude.{ℕ, ◌≡◌, ◌≢◌, ◌⊎◌, inl, refl, Option, none, some, arith}
use linux_learning_by_doing.Hello.{
  Hello1, absent, loaded, going, Kernel, booted, Step, insmod_hello, insmod_hello1, rmmod_hello,
  rmmod_hello1, rmmod_hello1_killed, Reach, start, later,
}

abbrev pub Needs : Hello1 → Option ℕ → Type 0
Needs absent hello = (hello ≡ none) ⊎ (hello ≡ some 5)
Needs (loaded v) hello = (v ≡ 5) × (hello ≡ some 5)
Needs (going v) hello = (v ≡ 5) × (hello ≡ some 5)

step-Needs : {k l : Kernel} → Needs k.hello1 k.hello → Step k l → Needs l.hello1 l.hello
step-Needs n (insmod_hello e) = ground arith
step-Needs n (insmod_hello1 v e f) = ground arith
step-Needs n (rmmod_hello v e f) = ground arith
step-Needs n (rmmod_hello1 v m e f) = ground arith
step-Needs n (rmmod_hello1_killed v e f) = ground arith

reach-Needs : {k l : Kernel} → Needs k.hello1 k.hello → Reach k l → Needs l.hello1 l.hello
reach-Needs n start = n
reach-Needs n (later r p) = step-Needs (reach-Needs n r) p

record Pinned (k : Kernel) : Type 0 where
  hello : k.hello ≡ some 5
  hello1 : k.hello1 ≢ absent

step-Pinned : {k l : Kernel} → Pinned k → Step k l → Pinned l
step-Pinned n (insmod_hello e) = record { hello = ground arith; hello1 = n.hello1 }
step-Pinned n (insmod_hello1 v e f) = absurd (n.hello1 f)
step-Pinned n (rmmod_hello v e f) = absurd (n.hello1 f)
step-Pinned n (rmmod_hello1 v m e f) = ground arith
step-Pinned n (rmmod_hello1_killed v e f) = record { hello = n.hello; hello1 = λ h. ground arith }

reach-Pinned : {k l : Kernel} → Pinned k → Reach k l → Pinned l
reach-Pinned n start = n
reach-Pinned n (later r p) = step-Pinned (reach-Pinned n r) p

-- Once hello1.c is loaded it has the value 5 of `new_symbol`, and from then on neither module ever leaves the
-- kernel: hello1.c because its function for that is killed, hello.c because the other one uses its symbol.
pub hello1_pins_hello :
    {k l : Kernel}
    → Reach booted k
    → (v : ℕ) → k.hello1 ≡ loaded v
    → Reach k l
    → (v ≡ 5) × (l.hello ≡ some 5) × (l.hello1 ≢ absent)
hello1_pins_hello {k} r v e q =
    let n = reach-Needs (inl refl) r in
    let p = reach-Pinned {k = k} (record { hello = ground arith; hello1 = λ h. ground arith }) q in
    (ground arith, p.hello, p.hello1)
