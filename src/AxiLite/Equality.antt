-- ===== src/AxiLite/Equality.antt =====
-- operator == of the two records is equality.
use riscv_v2f_optimized.Prelude.{true, ==_iff, ==_refl, ◌≡◌, ◌↔◌, refl}
use riscv_v2f_optimized.Axi.Equality.{same_bit-eq, same_bit_refl, both}
use riscv_v2f_optimized.AxiLite.{LiteMaster, LiteSlave, same_lite_master, same_lite_slave}

lite_master-fields :
    (u v : LiteMaster)
    → same_lite_master u v ≡ true
    → ((((((((u.awvalid ≡ v.awvalid) × (u.awaddr ≡ v.awaddr)) × (u.wvalid ≡ v.wvalid))
                × (u.wdata ≡ v.wdata))
              × (u.wstrb ≡ v.wstrb))
            × (u.bready ≡ v.bready))
          × (u.arvalid ≡ v.arvalid))
        × (u.araddr ≡ v.araddr))
      × (u.rready ≡ v.rready)
unfolding same_lite_master
lite_master-fields u v =
    both
      (both
        (both
          (both
            (both
              (both
                (both (both (same_bit-eq u.awvalid v.awvalid) (==_iff u.awaddr v.awaddr).0)
                  (same_bit-eq u.wvalid v.wvalid))
                (==_iff u.wdata v.wdata).0)
              (==_iff u.wstrb v.wstrb).0)
            (same_bit-eq u.bready v.bready))
          (same_bit-eq u.arvalid v.arvalid))
        (==_iff u.araddr v.araddr).0)
      (same_bit-eq u.rready v.rready)

-- operator == of axi4_lite_master holds exactly for equal signals.
same_lite_master-eq : (u v : LiteMaster) → (same_lite_master u v ≡ true) ↔ (u ≡ v)
unfolding same_lite_master
same_lite_master-eq u v = (to, from)
  where
    to : same_lite_master u v ≡ true → u ≡ v
    to h = let ((((((((e0, e1), e2), e3), e4), e5), e6), e7), e8) = lite_master-fields u v h in cc

    from : u ≡ v → same_lite_master u v ≡ true
    from e = rw e (
        simp
          (
            same_bit_refl v.awvalid,
            ==_refl v.awaddr,
            same_bit_refl v.wvalid,
            ==_refl v.wdata,
            ==_refl v.wstrb,
            same_bit_refl v.bready,
            same_bit_refl v.arvalid,
            ==_refl v.araddr,
            same_bit_refl v.rready,
          )
          refl)

lite_slave-fields :
    (u v : LiteSlave)
    → same_lite_slave u v ≡ true
    → (((((((u.awready ≡ v.awready) × (u.wready ≡ v.wready)) × (u.bvalid ≡ v.bvalid))
              × (u.bresp ≡ v.bresp))
            × (u.arready ≡ v.arready))
          × (u.rvalid ≡ v.rvalid))
        × (u.rdata ≡ v.rdata))
      × (u.rresp ≡ v.rresp)
unfolding same_lite_slave
lite_slave-fields u v =
    both
      (both
        (both
          (both
            (both
              (both (both (same_bit-eq u.awready v.awready) (same_bit-eq u.wready v.wready))
                (same_bit-eq u.bvalid v.bvalid))
              (==_iff u.bresp v.bresp).0)
            (same_bit-eq u.arready v.arready))
          (same_bit-eq u.rvalid v.rvalid))
        (==_iff u.rdata v.rdata).0)
      (==_iff u.rresp v.rresp).0

-- operator == of axi4_lite_slave holds exactly for equal signals.
same_lite_slave-eq : (u v : LiteSlave) → (same_lite_slave u v ≡ true) ↔ (u ≡ v)
unfolding same_lite_slave
same_lite_slave-eq u v = (to, from)
  where
    to : same_lite_slave u v ≡ true → u ≡ v
    to h = let (((((((e0, e1), e2), e3), e4), e5), e6), e7) = lite_slave-fields u v h in cc

    from : u ≡ v → same_lite_slave u v ≡ true
    from e = rw e (
        simp
          (
            same_bit_refl v.awready,
            same_bit_refl v.wready,
            same_bit_refl v.bvalid,
            ==_refl v.bresp,
            same_bit_refl v.arready,
            same_bit_refl v.rvalid,
            ==_refl v.rdata,
            ==_refl v.rresp,
          )
          refl)
