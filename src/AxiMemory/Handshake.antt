-- ===== src/AxiMemory/Handshake.antt =====
-- What process() keeps from one cycle to the next: a response that was not taken, and the bounds
-- of the queues.
use mathlib.Core.Path.{subst}
use riscv_v2f_optimized.Prelude.{ℕ, Bool, true, false, ◌&&◌, ◌≡◌, ◌∙◌, refl, sym, if◌then◌else◌}
use riscv_v2f_optimized.Prelude.Outcome.{
  Outcome, done, Ensures, Ensures-bind, Ensures-step, Ensures-test, Ensures-queue, ◌>>=◌,
}
use riscv_v2f_optimized.Axi.{Master, Slave}
use riscv_v2f_optimized.AxiMemory.{
  AxiMemory, delay_cycle, read_command, write_command, write_data, axi_read32, axi_write32,
  clear_read, read_response, clear_write, write_response, handshake, cycle,
}

-- The signals of the read data channel.
abbrev pub SameRead : Slave → Slave → Type 0
SameRead o o' =
    (o'.rvalid ≡ o.rvalid)
    × (o'.rdata ≡ o.rdata)
    × (o'.rresp ≡ o.rresp)
    × (o'.rid ≡ o.rid)
    × (o'.rlast ≡ o.rlast)

-- The signals of the write response channel.
abbrev pub SameWrite : Slave → Slave → Type 0
SameWrite o o' = (o'.bvalid ≡ o.bvalid) × (o'.bresp ≡ o.bresp) × (o'.bid ≡ o.bid)

taken :
    {B : Type 0} → (b : Bool) (x y : B) → b ≡ true → elim b as (λ _. B) [ true ↦ x | false ↦ y ] ≡ x
taken true x y h = refl
taken false x y h = cc

not_taken : {B : Type 0} → (b c : Bool) (x y : B) → c ≡ false → (if b && c then x else y) ≡ y
not_taken true true x y h = cc
not_taken true false x y h = refl
not_taken false c x y h = refl

module _ (rand : ℕ → ℕ) where
  clear_read-SameWrite : (i : Master) (o : Slave) → SameWrite o (clear_read rand i o)
  unfolding clear_read
  clear_read-SameWrite i o = only (o.rvalid && i.rready)
    where
      only :
          (b : Bool)
          → SameWrite o (
              if b
              then record o { rvalid = false; rdata = 0; rid = 0; rresp = 0; rlast = false }
              else o)
      only true = (refl, refl, refl)
      only false = (refl, refl, refl)

  clear_write-SameRead : (i : Master) (o : Slave) → SameRead o (clear_write rand i o)
  unfolding clear_write
  clear_write-SameRead i o = only (o.bvalid && i.bready)
    where
      only :
          (b : Bool) → SameRead o (if b then record o { bvalid = false; bid = 0; bresp = 0 } else o)
      only true = (refl, refl, refl, refl, refl)
      only false = (refl, refl, refl, refl, refl)

  read_response-held :
      (o : Slave) (s : AxiMemory) → o.rvalid ≡ true → read_response rand o s ≡ done (s, o)
  unfolding read_response
  read_response-held o s v = taken o.rvalid _ _ v

  write_response-held :
      (o : Slave) (s : AxiMemory) → o.bvalid ≡ true → write_response rand o s ≡ done (s, o)
  unfolding write_response
  write_response-held o s v = taken o.bvalid _ _ v

  write_response-SameRead :
      (o o' : Slave) (s : AxiMemory)
      → SameRead o o'
      → Ensures (λ r. SameRead o r.1) (write_response rand o' s)
  unfolding write_response
  write_response-SameRead o o' s h =
      Ensures-test _ o'.bvalid _ _
        (Ensures-queue _ s.wr_q _ _ h λ item rest e.
          Ensures-test _ (delay_cycle rand s).1 _ _
            (Ensures-step (λ r. SameRead o r.1)
              (axi_write32 rand (record (delay_cycle rand s).0 { wr_q = rest }) item.awaddr
                item.wdata item.wstrb)
              _ λ s' hs. h)
            h)
        h

  read_response-SameWrite :
      (o o' : Slave) (s : AxiMemory)
      → SameWrite o o'
      → Ensures (λ r. SameWrite o r.1) (read_response rand o' s)
  unfolding read_response
  read_response-SameWrite o o' s h =
      Ensures-test _ o'.rvalid _ _
        (Ensures-queue _ s.rd_q _ _ h λ item rest e.
          Ensures-test _ (delay_cycle rand s).1 _ _
            (Ensures-step (λ r. SameWrite o r.1)
              (axi_read32 rand (record (delay_cycle rand s).0 { rd_q = rest }) item.araddr) _
              λ s' hs. h)
            h)
        h

  -- A read response that the master has not taken stays as it is: RVALID is not withdrawn, and the
  -- data, the response, the id and RLAST do not change, whatever else happens in the cycle.
  pub cycle-SameRead :
      (i : Master) (o : Slave) (s : AxiMemory)
      → o.rvalid ≡ true
      → i.rready ≡ false
      → Ensures (λ r. SameRead o r.1) (cycle rand i o s)
  unfolding cycle handshake clear_read
  cycle-SameRead i o s v r =
      Ensures-step _ (write_data rand i o (write_command rand i o (read_command rand i o s))) _
        λ s1 h1.
          subst (λ c. Ensures (λ r. SameRead o r.1) (read_response rand c s1 >>= later))
            (sym (not_taken o.rvalid i.rready _ _ r))
            (subst (λ m. Ensures (λ r. SameRead o r.1) (m >>= later))
              (sym (read_response-held o s1 v))
              (Ensures-bind (λ r. SameRead o r.1) _ (write_response rand (clear_write rand i o) s1)
                _ (write_response-SameRead o (clear_write rand i o) s1 (clear_write-SameRead i o))
                λ r h. h))
    where
      later : AxiMemory × Slave → Outcome (AxiMemory × Slave)
      later (s2, o2) =
          write_response rand (clear_write rand i o2) s2 >>= λ (s3, o3). done (handshake rand o3 s3)

  -- A write response that the master has not taken stays as it is in the same way.
  pub cycle-SameWrite :
      (i : Master) (o : Slave) (s : AxiMemory)
      → o.bvalid ≡ true
      → i.bready ≡ false
      → Ensures (λ r. SameWrite o r.1) (cycle rand i o s)
  unfolding cycle handshake clear_write
  cycle-SameWrite i o s v r =
      Ensures-step _ (write_data rand i o (write_command rand i o (read_command rand i o s))) _
        λ s1 h1.
          Ensures-bind (λ r. SameWrite o r.1) _ (read_response rand (clear_read rand i o) s1) _
            (read_response-SameWrite o (clear_read rand i o) s1 (clear_read-SameWrite i o))
            λ (s2, o2) h.
              subst (λ c. Ensures (λ r. SameWrite o r.1) (write_response rand c s2 >>= later))
                (sym (not_taken o2.bvalid i.bready _ _ r))
                (subst (λ m. Ensures (λ r. SameWrite o r.1) (m >>= later))
                  (sym (write_response-held o2 s2 (h.0 ∙ v))) h)
    where
      later : AxiMemory × Slave → Outcome (AxiMemory × Slave)
      later (s3, o3) = done (handshake rand o3 s3)
