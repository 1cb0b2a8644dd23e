-- ===== src/AxiMemory/Queues.antt =====
-- The bounds of process()'s queues: a burst is taken only while fewer than 128 items wait.
use mathlib.Core.Path.{subst}
use riscv_v2f_optimized.Prelude.{
  ℕ, ◌+◌, ◌<◌, ◌≤◌, Bool, true, false, not, ◌&&◌, ltb, List, [], ◌∷◌, ◌++◌, length, ◌≡◌, ◌∙◌, refl,
  if◌then◌else◌, arith, Bool-cases, inl, inr,
}
use riscv_v2f_optimized.Prelude.Outcome.{
  done, Ensures, Ensures-of, Ensures-bind, Ensures-step, Ensures-test, Ensures-queue, Ensures-if,
}
use riscv_v2f_optimized.Axi.{Master, Slave, init_master, init_slave}
use riscv_v2f_optimized.AxiMemory.{
  AxiMemory, unroll, delay_cycle, read_command, write_command, write_data, axi_read32, axi_write32,
  read_lanes, write_lanes, clear_read, read_response, clear_write, write_response, handshake, cycle,
}
use riscv_v2f_optimized.AxiMemory.Burst.{unroll-length}

length-++ : {A : Type 0} → (xs ys : List A) → length (xs ++ ys) ≡ length xs + length ys
length-++ [] ys = omega arith
length-++ (x ∷ xs) ys = omega (arith, length-++ xs ys)

-- The lengths of both queues.
abbrev pub AreShort : AxiMemory → Type 0
AreShort s = (length s.rd_q ≤ 383) × (length s.wr_q ≤ 128)

-- The same with what the ready signals promise.
abbrev pub AreBounded : Slave → AxiMemory → Type 0
AreBounded o s =
    (o.arready ≡ true → length s.rd_q < 128) × (o.wready ≡ true → length s.wr_q < 128) × AreShort s

&&-right : (a b : Bool) → (a && b) ≡ true → b ≡ true
&&-right true b h = h
&&-right false b h = cc

&&-left : (a b : Bool) → (a && b) ≡ true → a ≡ true
&&-left true b h = refl
&&-left false b h = cc

module _ (rand : ℕ → ℕ) where
  delay_cycle-rd_q : (s : AxiMemory) → (delay_cycle rand s).0.rd_q ≡ s.rd_q
  unfolding delay_cycle
  delay_cycle-rd_q s = elim (Bool-cases s.enable_delays) [
    | inl e ↦ simp e refl
    | inr e ↦ simp e refl
  ]

  delay_cycle-wr_q : (s : AxiMemory) → (delay_cycle rand s).0.wr_q ≡ s.wr_q
  unfolding delay_cycle
  delay_cycle-wr_q s = elim (Bool-cases s.enable_delays) [
    | inl e ↦ simp e refl
    | inr e ↦ simp e refl
  ]

  delay_cycle-AreShort : (s : AxiMemory) → AreShort s → AreShort (delay_cycle rand s).0
  delay_cycle-AreShort s h = rw (delay_cycle-rd_q s, delay_cycle-wr_q s) h

  read_command-rd_q :
      (i : Master) (o : Slave) (s : AxiMemory)
      → i.arlen < 256
      → AreBounded o s
      → length (read_command rand i o s).rd_q ≤ 383
  unfolding read_command
  read_command-rd_q i o s h b = elim (Bool-cases (i.arvalid && o.arready)) [
    | inl e ↦ rw e (
        rw (length-++ s.rd_q (unroll (i.arlen + 1) 0 _ i), unroll-length (i.arlen + 1) 0 _ i)
          (sum (b.0 (&&-right i.arvalid o.arready e))))
    | inr e ↦ rw e b.2.0
  ]
    where
      sum : length s.rd_q < 128 → length s.rd_q + (i.arlen + 1) ≤ 383
      sum k = omega arith

  write_data-AreShort :
      (i : Master) (o : Slave) (s : AxiMemory)
      → (o.wready ≡ true → length s.wr_q < 128)
      → AreShort s
      → Ensures AreShort (write_data rand i o s)
  unfolding write_data
  write_data-AreShort i o s w h = elim (Bool-cases (i.wvalid && o.wready)) [
    | inl e ↦ rw e (
        Ensures-if AreShort s.wr_req.awvalid _ _ (h.0, one _ (w (&&-right i.wvalid o.wready e))) tt)
    | inr e ↦ rw e h
  ]
    where
      one : (item : Master) → length s.wr_q < 128 → length (s.wr_q ++ item ∷ []) ≤ 128
      one item k = omega (arith, length-++ s.wr_q (item ∷ []))

  axi_read32-AreShort :
      (s : AxiMemory) (addr : ℕ) → AreShort s → Ensures (λ r. AreShort r.0) (axi_read32 rand s addr)
  unfolding axi_read32
  axi_read32-AreShort s addr h =
      Ensures-step _ (read_lanes rand 4 0 addr 0 s.arrays s.mem) _ λ r e. h

  axi_write32-AreShort :
      (s : AxiMemory) (addr d strb : ℕ)
      → AreShort s
      → Ensures AreShort (axi_write32 rand s addr d strb)
  unfolding axi_write32
  axi_write32-AreShort s addr d strb h =
      Ensures-step _ (write_lanes rand 4 0 addr d strb s.arrays s.mem) _ λ r e. h

  -- What is left of a queue is no longer than it was.
  shorter :
      (q : List Master) (x : Master) (xs : List Master) (n : ℕ)
      → q ≡ x ∷ xs
      → length q ≤ n
      → length xs ≤ n
  shorter q x xs n e h = below (subst (λ y. length y ≤ n) e h)
    where
      below : length (x ∷ xs) ≤ n → length xs ≤ n
      below h = omega arith

  read_response-AreShort :
      (o : Slave) (s : AxiMemory)
      → AreShort s
      → Ensures (λ r. AreShort r.0) (read_response rand o s)
  unfolding read_response
  read_response-AreShort o s h =
      Ensures-test _ o.rvalid _ _
        (Ensures-queue _ s.rd_q _ _ h λ item rest e.
          Ensures-test _ (delay_cycle rand s).1 _ _
            (Ensures-bind (λ r. AreShort r.0) (λ r. AreShort r.0)
              (axi_read32 rand (record (delay_cycle rand s).0 { rd_q = rest }) item.araddr) _
              (axi_read32-AreShort (record (delay_cycle rand s).0 { rd_q = rest }) item.araddr
                (shorter s.rd_q item rest 383 e h.0, (delay_cycle-AreShort s h).1))
              λ r k. k)
            (delay_cycle-AreShort s h))
        h

  write_response-AreShort :
      (o : Slave) (s : AxiMemory)
      → AreShort s
      → Ensures (λ r. AreShort r.0) (write_response rand o s)
  unfolding write_response
  write_response-AreShort o s h =
      Ensures-test _ o.bvalid _ _
        (Ensures-queue _ s.wr_q _ _ h λ item rest e.
          Ensures-test _ (delay_cycle rand s).1 _ _
            (Ensures-bind AreShort (λ r. AreShort r.0)
              (axi_write32 rand (record (delay_cycle rand s).0 { wr_q = rest }) item.awaddr
                item.wdata item.wstrb)
              _
              (axi_write32-AreShort (record (delay_cycle rand s).0 { wr_q = rest }) item.awaddr
                item.wdata item.wstrb
                ((delay_cycle-AreShort s h).0, shorter s.wr_q item rest 128 e h.1))
              λ r k. k)
            (delay_cycle-AreShort s h))
        h

  handshake-rd_q : (o : Slave) (s : AxiMemory) → (handshake rand o s).0.rd_q ≡ s.rd_q
  unfolding handshake
  handshake-rd_q o s =
      last (not (delay_cycle rand (delay_cycle rand s).0).1 && ltb (length s.wr_q) 128)
        (delay_cycle rand (delay_cycle rand s).0).0
      ∙ delay_cycle-rd_q (delay_cycle rand s).0
      ∙ delay_cycle-rd_q s
    where
      last :
          (b : Bool) (t : AxiMemory)
          → (if b then delay_cycle rand t else (t, false)).0.rd_q ≡ t.rd_q
      last true t = delay_cycle-rd_q t
      last false t = refl

  handshake-wr_q : (o : Slave) (s : AxiMemory) → (handshake rand o s).0.wr_q ≡ s.wr_q
  unfolding handshake
  handshake-wr_q o s =
      last (not (delay_cycle rand (delay_cycle rand s).0).1 && ltb (length s.wr_q) 128)
        (delay_cycle rand (delay_cycle rand s).0).0
      ∙ delay_cycle-wr_q (delay_cycle rand s).0
      ∙ delay_cycle-wr_q s
    where
      last :
          (b : Bool) (t : AxiMemory)
          → (if b then delay_cycle rand t else (t, false)).0.wr_q ≡ t.wr_q
      last true t = delay_cycle-wr_q t
      last false t = refl

  handshake-AreBounded :
      (o : Slave) (s : AxiMemory)
      → AreShort s
      → AreBounded (handshake rand o s).1 (handshake rand o s).0
  unfolding handshake
  handshake-AreBounded o s h =
      rw (handshake-rd_q o s, handshake-wr_q o s)
        (
          λ e. ltb-lt (length s.rd_q) (&&-right _ _ e),
          λ e. ltb-lt (length s.wr_q) (&&-right _ _ (&&-left _ _ e)),
          h,
        )
    where
      ltb-lt : (n : ℕ) → ltb n 128 ≡ true → n < 128
      ltb-lt n h = ground arith

  cycle-AreBounded :
      (i : Master) (o : Slave) (s : AxiMemory)
      → i.arlen < 256
      → AreBounded o s
      → Ensures (λ r. AreBounded r.1 r.0) (cycle rand i o s)
  unfolding cycle
  cycle-AreBounded i o s h b =
      let commanded = write_command rand i o (read_command rand i o s) in
      Ensures-bind AreShort _ (write_data rand i o commanded) _
        (write_data-AreShort i o commanded (rw (commanded-wr_q) b.1)
          (rw commanded-rd_q (read_command-rd_q i o s h b), rw commanded-wr_q b.2.1))
        λ s1 h1.
          Ensures-bind (λ r. AreShort r.0) _ (read_response rand (clear_read rand i o) s1) _
            (read_response-AreShort (clear_read rand i o) s1 h1)
            λ (s2, o2) h2.
              Ensures-bind (λ r. AreShort r.0) _ (write_response rand (clear_write rand i o2) s2) _
                (write_response-AreShort (clear_write rand i o2) s2 h2)
                λ (s3, o3) h3. handshake-AreBounded o3 s3 h3
    where
      commanded-rd_q :
          (write_command rand i o (read_command rand i o s)).rd_q ≡ (read_command rand i o s).rd_q
      commanded-rd_q =
          unfold write_command in
          (elim (Bool-cases (i.awvalid && o.awready)) [ inl e ↦ simp e refl | inr e ↦ simp e refl ])

      commanded-wr_q : (write_command rand i o (read_command rand i o s)).wr_q ≡ s.wr_q
      commanded-wr_q =
          unfold write_command in
          unfold read_command in
          (elim (Bool-cases (i.awvalid && o.awready)) [
            | inl e ↦ elim (Bool-cases (i.arvalid && o.arready)) [
              | inl k ↦ simp (e, k) refl
              | inr k ↦ simp (e, k) refl
            ]
            | inr e ↦ elim (Bool-cases (i.arvalid && o.arready)) [
              | inl k ↦ simp (e, k) refl
              | inr k ↦ simp (e, k) refl
            ]
          ])

  -- The rounds of process(), from the signals and the local variables with which it starts: both queues
  -- are empty, no write is requested, and axi_out has the default values of its signals. Any request may stand at axi_in.
  pub data Rounds (start : AxiMemory) : Slave → AxiMemory → Type 0 where
    begin :
        start.rd_q ≡ []
        → start.wr_q ≡ []
        → start.wr_req ≡ init_master
        → Rounds start init_slave start
    round :
        (i : Master) {o o' : Slave} {s s' : AxiMemory}
        → Rounds start o s
        → i.arlen < 256
        → cycle rand i o s ≡ done (s', o')
        → Rounds start o' s'

  -- After any number of rounds of process() from its start, whatever requests come, at most 383 words
  -- wait to be read and at most 128 to be written, and fewer than 128 of either whenever its ready
  -- signal, ARREADY or WREADY, is given. ARLEN has eight bits.
  pub Rounds-AreBounded : {start s : AxiMemory} {o : Slave} → Rounds start o s → AreBounded o s
  Rounds-AreBounded (begin e f g) =
      (λ h. absurd cc, λ h. absurd cc, (rw e (omega arith), rw f (omega arith)))
  Rounds-AreBounded (round i {o} {o'} {s} {s'} r h e) =
      Ensures-of (λ r. AreBounded r.1 r.0) (cycle rand i o s) (s', o')
        (cycle-AreBounded i o s h (Rounds-AreBounded r)) e
