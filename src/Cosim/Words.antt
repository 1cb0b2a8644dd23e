-- ===== src/Cosim/Words.antt =====
-- A word written through cosim to one memory, read back.
use mathlib.Core.Path.{subst}
use native.Mathlib.Nat.{pow-suc}
use riscv_v2f_optimized.Prelude.{
  ℕ, zero, suc, ◌+◌, ◌*◌, ◌/◌, ◌%◌, ◌^◌, ◌<◌, ◌≤◌, true, ◌==◌, ==_iff, max, List, [], ◌∷◌, Option,
  some, get_elem?, set, get_elem?-set_self, bit_or, ◌≡◌, ◌≢◌, ◌∙◌, refl, ap, arith, Bool-cases, inl,
  inr,
}
use riscv_v2f_optimized.Prelude.Outcome.{done, >>=-done}
use riscv_v2f_optimized.Word.{add32, shl32, shr32}
use riscv_v2f_optimized.Word.Bits.{bit_or_step, zero-bit_or}
use riscv_v2f_optimized.Cosim.Api.{MemApi}
use riscv_v2f_optimized.Cosim.{Cosim, CpuItem, MemItem, Dump, or_undefined}
use riscv_v2f_optimized.Cosim.Bus.{
  in_item, write_each, bus_write, read_first, bus_read, write_bytes, write_word, read_bytes,
  read_word,
}

-- What a memory promises: at a good address a byte can be written and reads back, and no other good
-- address notices.
pub record MemLaws {S : Type 0} (api : MemApi S) : Type 1 where
  pub IsGood : S → ℕ → Type 0
  pub store :
      (s : S) (a d : ℕ)
      → d < 2 ^ 8
      → IsGood s a
      → (s' : S) × (api.write s a d ≡ done s')
        × (api.read s' a ≡ done d)
        × ((b : ℕ) → IsGood s b → a ≢ b → api.read s' b ≡ api.read s b)
        × ((b : ℕ) → IsGood s b → IsGood s' b)

bit_or_above : (n a b : ℕ) → a < 2 ^ n → bit_or a (b * 2 ^ n) ≡ a + b * 2 ^ n
bit_or_above zero a b h =
    ap (λ x. bit_or x (b * 1)) (omega arith) ∙ zero-bit_or (b * 1) ∙ omega arith
bit_or_above (suc n) a b h =
    bit_or_step a (b * 2 ^ suc n)
    ∙ ap (λ y. max (a % 2) (b * 2 ^ suc n % 2) + 2 * bit_or (a / 2) y) half
    ∙ ap (λ y. max (a % 2) (b * 2 ^ suc n % 2) + 2 * y) (bit_or_above n (a / 2) b (omega arith))
    ∙ whole
  where
    doubled : b * 2 ^ suc n ≡ b * 2 ^ n * 2
    doubled = omega (arith, ap (λ (t : ℕ). b * t) (pow-suc 2 n))

    half : b * 2 ^ suc n / 2 ≡ b * 2 ^ n
    half = rw doubled (omega arith)

    whole : max (a % 2) (b * 2 ^ suc n % 2) + 2 * (a / 2 + b * 2 ^ n) ≡ a + b * 2 ^ suc n
    whole = rw doubled (omega arith)

-- The byte `k` of a word.
abbrev byte : ℕ → ℕ → ℕ
byte v k = shr32 v (k * 8) % 2 ^ 8

bytes-join :
    (v : ℕ)
    → v < 2 ^ 32
    → bit_or
        (bit_or (bit_or (bit_or 0 (shl32 (byte v 0) 0)) (shl32 (byte v 1) 8)) (shl32 (byte v 2) 16))
        (shl32 (byte v 3) 24)
      ≡ v
unfolding shl32 shr32
bytes-join v h =
    ap
      (λ x.
        bit_or (bit_or (bit_or x (shl32 (byte v 1) 8)) (shl32 (byte v 2) 16)) (shl32 (byte v 3) 24))
      (zero-bit_or (shl32 (byte v 0) 0) ∙ low)
    ∙ ap (λ x. bit_or (bit_or x (shl32 (byte v 2) 16)) (shl32 (byte v 3) 24))
        (ap (bit_or (v % 2 ^ 8)) second
          ∙ bit_or_above 8 (v % 2 ^ 8) (v / 2 ^ 8 % 2 ^ 8) (omega arith))
    ∙ ap (λ x. bit_or x (shl32 (byte v 3) 24))
        (ap (bit_or _) third
          ∙ bit_or_above 16 (v % 2 ^ 8 + v / 2 ^ 8 % 2 ^ 8 * 2 ^ 8) (v / 2 ^ 16 % 2 ^ 8)
              (omega arith))
    ∙ ap (bit_or _) fourth
    ∙ bit_or_above 24 (v % 2 ^ 8 + v / 2 ^ 8 % 2 ^ 8 * 2 ^ 8 + v / 2 ^ 16 % 2 ^ 8 * 2 ^ 16)
        (v / 2 ^ 24 % 2 ^ 8) (omega arith)
    ∙ omega arith
  where
    low : shl32 (byte v 0) 0 ≡ v % 2 ^ 8
    low = unfold shl32 in unfold shr32 in omega arith

    second : shl32 (byte v 1) 8 ≡ v / 2 ^ 8 % 2 ^ 8 * 2 ^ 8
    second = unfold shl32 in unfold shr32 in omega arith

    third : shl32 (byte v 2) 16 ≡ v / 2 ^ 16 % 2 ^ 8 * 2 ^ 16
    third = unfold shl32 in unfold shr32 in omega arith

    fourth : shl32 (byte v 3) 24 ≡ v / 2 ^ 24 % 2 ^ 8 * 2 ^ 24
    fourth = unfold shl32 in unfold shr32 in omega arith

module _ {S : Type 0} (api : MemApi S) (laws : MemLaws api) (cs : List CpuItem) (it : MemItem)
    (d : Option Dump) where
  -- The world with the one memory.
  abbrev pub with_objects : List S → Cosim S
  with_objects os = record { objects = os; m_cpu = cs; m_mem = it ∷ []; m_dump = d }

  pub bus_read-one :
      (os : List S) (s : S) (a : ℕ)
      → get_elem? os it.mem ≡ some s
      → in_item a it ≡ true
      → bus_read api (with_objects os) a ≡ api.read s a
  unfolding bus_read read_first
  bus_read-one os s a e k = rw k (>>=-done _ (ap or_undefined e) refl)

  pub bus_write-one :
      (os : List S) (s s' : S) (a b : ℕ)
      → get_elem? os it.mem ≡ some s
      → in_item a it ≡ true
      → api.write s a b ≡ done s'
      → bus_write api (with_objects os) a b ≡ done (with_objects (set os it.mem s'))
  unfolding bus_write write_each
  bus_write-one os s s' a b e k w =
      rw k (>>=-done _ (>>=-done _ (ap or_undefined e) (>>=-done _ w refl)) refl)

  -- The bytes from `i` on, written one after the other.
  write_bytes-one :
      (left i addr v : ℕ) (os : List S) (s : S)
      → get_elem? os it.mem ≡ some s
      → addr + 3 < 2 ^ 32
      → i + left ≤ 4
      → ((k : ℕ) → k < 4 → (in_item (addr + k) it ≡ true) × laws.IsGood s (addr + k))
      → (os' : List S) × (s' : S) × (write_bytes api left i addr v (with_objects os)
          ≡ done (with_objects os'))
        × (get_elem? os' it.mem ≡ some s')
        × ((k : ℕ) → i ≤ k → k < i + left → api.read s' (addr + k) ≡ done (shr32 v (k * 8) % 2 ^ 8))
        × ((k : ℕ) → k < i → api.read s' (addr + k) ≡ api.read s (addr + k))
  unfolding write_bytes
  write_bytes-one zero i addr v os s e h l good =
      (os, s, refl, e, λ k p q. absurd (omega arith), λ k p. refl)
  write_bytes-one (suc left) i addr v os s e h l good =
      let (now, g) = good i (omega arith) in
      let (s1, w1, r1, others, keeps) =
        laws.store s (addr + i) (shr32 v (i * 8) % 2 ^ 8) (omega arith) g in
      let os1 = set os it.mem s1 in
      let (os2, s2, w2, e2, here, before) =
        write_bytes-one left (i + 1) addr v os1 s1 (get_elem?-set_self os it.mem s1 e) h
          (omega arith) (λ k p. ((good k p).0, keeps (addr + k) (good k p).1)) in
      (
        os2,
        s2,
        >>=-done (write_bytes api left (i + 1) addr v)
            (ap (λ x. bus_write api (with_objects os) x (shr32 v (i * 8) % 2 ^ 8))
                (inside i (omega arith))
              ∙ bus_write-one os s s1 (addr + i) _ e now w1)
            w2,
        e2,
        λ k p q. elim (Bool-cases (i == k)) [
          | inl m ↦
              subst (λ x. api.read s2 (addr + x) ≡ done (shr32 v (x * 8) % 2 ^ 8))
                ((==_iff i k).0 m) (before i (omega arith) ∙ r1)
          | inr m ↦ here k (ground arith) (omega arith)
        ],
        λ k p.
            before k (omega arith) ∙ others (addr + k) (good k (omega arith)).1 (λ x. omega arith),
      )
    where
      inside : (k : ℕ) → k < 4 → add32 addr k ≡ addr + k
      inside k p = unfold add32 in omega arith

  -- read_word puts the four bytes together.
  read_word-one :
      (addr v : ℕ) (os : List S) (s : S)
      → get_elem? os it.mem ≡ some s
      → addr + 3 < 2 ^ 32
      → v < 2 ^ 32
      → ((k : ℕ) → k < 4 → in_item (addr + k) it ≡ true)
      → ((k : ℕ) → k < 4 → api.read s (addr + k) ≡ done (shr32 v (k * 8) % 2 ^ 8))
      → read_word api (with_objects os) addr ≡ done v
  unfolding read_word read_bytes
  read_word-one addr v os s e h hv inside bytes = >>=-done _ (one 0 (omega arith)) (
      >>=-done _ (one 1 (omega arith)) (
        >>=-done _ (one 2 (omega arith))
          (>>=-done _ (one 3 (omega arith)) (ap done (bytes-join v hv)))))
    where
      one :
          (k : ℕ)
          → k < 4
          → bus_read api (with_objects os) (add32 addr k) ≡ done (shr32 v (k * 8) % 2 ^ 8)
      one k p =
          ap (bus_read api (with_objects os)) (unfold add32 in omega arith)
          ∙ bus_read-one os s (addr + k) e (inside k p)
          ∙ bytes k p

  -- A word written through cosim to a memory that keeps its promises, at four addresses that its item
  -- covers and where it is good, reads back; neither call ends the process.
  pub write_word-read_word :
      (addr v : ℕ) (os : List S) (s : S)
      → get_elem? os it.mem ≡ some s
      → addr + 3 < 2 ^ 32
      → v < 2 ^ 32
      → ((k : ℕ) → k < 4 → (in_item (addr + k) it ≡ true) × laws.IsGood s (addr + k))
      → (os' : List S) × (write_word api (with_objects os) addr v ≡ done (with_objects os'))
        × (read_word api (with_objects os') addr ≡ done v)
  unfolding write_word
  write_word-read_word addr v os s e h hv good =
      let (os', s', w, e', bytes, before) =
        write_bytes-one 4 0 addr v os s e h (omega arith) good in
      (
        os',
        w,
        read_word-one addr v os' s' e' h hv (λ k p. (good k p).0)
            (λ k p. bytes k (omega arith) (omega arith)),
      )
