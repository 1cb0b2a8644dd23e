-- ===== src/Axi/Equality.antt =====
-- operator == of the two records is equality.
use riscv_v2f_optimized.Prelude.{Bool, true, false, ◌&&◌, ==_iff, ==_refl, ◌≡◌, ◌↔◌, refl}
use riscv_v2f_optimized.Axi.{Master, Slave, same_bit, same_master, same_slave}

pub same_bit-eq : (a b : Bool) → same_bit a b ≡ true → a ≡ b
same_bit-eq true true h = refl
same_bit-eq true false h = cc
same_bit-eq false true h = cc
same_bit-eq false false h = refl

pub same_bit_refl : (a : Bool) → same_bit a a ≡ true
same_bit_refl true = refl
same_bit_refl false = refl

-- What the two parts of a conjunction decide.
pub both :
    {A : Type 0}
    → {B : Type 0} → {a b : Bool} → (a ≡ true → A)
    → (b ≡ true → B)
    → (a && b) ≡ true
    → A × B
both {a = true} f g h = (f refl, g h)
both {a = false} f g h = cc

slave-fields :
    (u v : Slave)
    → same_slave u v ≡ true
    → ((((((((((u.awready ≡ v.awready) × (u.wready ≡ v.wready)) × (u.bvalid ≡ v.bvalid))
                    × (u.bresp ≡ v.bresp))
                  × (u.bid ≡ v.bid))
                × (u.arready ≡ v.arready))
              × (u.rvalid ≡ v.rvalid))
            × (u.rdata ≡ v.rdata))
          × (u.rresp ≡ v.rresp))
        × (u.rid ≡ v.rid))
      × (u.rlast ≡ v.rlast)
unfolding same_slave
slave-fields u v =
    both
      (both
        (both
          (both
            (both
              (both
                (both
                  (both
                    (both (both ((same_bit-eq u.awready v.awready)) (same_bit-eq u.wready v.wready))
                      (same_bit-eq u.bvalid v.bvalid))
                    (==_iff u.bresp v.bresp).0)
                  (==_iff u.bid v.bid).0)
                (same_bit-eq u.arready v.arready))
              (same_bit-eq u.rvalid v.rvalid))
            (==_iff u.rdata v.rdata).0)
          (==_iff u.rresp v.rresp).0)
        (==_iff u.rid v.rid).0)
      (same_bit-eq u.rlast v.rlast)

-- operator == of axi4_slave holds exactly for equal signals.
same_slave-eq : (u v : Slave) → (same_slave u v ≡ true) ↔ (u ≡ v)
unfolding same_slave
same_slave-eq u v = (to, from)
  where
    to : same_slave u v ≡ true → u ≡ v
    to h =
        let ((((((((((e0, e1), e2), e3), e4), e5), e6), e7), e8), e9), e10) = slave-fields u v h in
        cc

    from : u ≡ v → same_slave u v ≡ true
    from e = rw e (
        simp
          (
            same_bit_refl v.awready,
            same_bit_refl v.wready,
            same_bit_refl v.bvalid,
            ==_refl v.bresp,
            ==_refl v.bid,
            same_bit_refl v.arready,
            same_bit_refl v.rvalid,
            ==_refl v.rdata,
            ==_refl v.rresp,
            ==_refl v.rid,
            same_bit_refl v.rlast,
          )
          refl)

master-fields :
    (u v : Master)
    → same_master u v ≡ true
    → (((((((((((((((u.awvalid ≡ v.awvalid) × (u.awaddr ≡ v.awaddr)) × (u.awid ≡ v.awid))
                              × (u.awlen ≡ v.awlen))
                            × (u.awburst ≡ v.awburst))
                          × (u.wvalid ≡ v.wvalid))
                        × (u.wdata ≡ v.wdata))
                      × (u.wstrb ≡ v.wstrb))
                    × (u.wlast ≡ v.wlast))
                  × (u.bready ≡ v.bready))
                × (u.arvalid ≡ v.arvalid))
              × (u.araddr ≡ v.araddr))
            × (u.arid ≡ v.arid))
          × (u.arlen ≡ v.arlen))
        × (u.arburst ≡ v.arburst))
      × (u.rready ≡ v.rready)
unfolding same_master
master-fields u v =
    both
      (both
        (both
          (both
            (both
              (both
                (both
                  (both
                    (both
                      (both
                        (both
                          (both
                            (both
                              (both
                                (both ((same_bit-eq u.awvalid v.awvalid))
                                  (==_iff u.awaddr v.awaddr).0)
                                (==_iff u.awid v.awid).0)
                              (==_iff u.awlen v.awlen).0)
                            (==_iff u.awburst v.awburst).0)
                          (same_bit-eq u.wvalid v.wvalid))
                        (==_iff u.wdata v.wdata).0)
                      (==_iff u.wstrb v.wstrb).0)
                    (same_bit-eq u.wlast v.wlast))
                  (same_bit-eq u.bready v.bready))
                (same_bit-eq u.arvalid v.arvalid))
              (==_iff u.araddr v.araddr).0)
            (==_iff u.arid v.arid).0)
          (==_iff u.arlen v.arlen).0)
        (==_iff u.arburst v.arburst).0)
      (same_bit-eq u.rready v.rready)

-- operator == of axi4_master holds exactly for equal signals.
same_master-eq : (u v : Master) → (same_master u v ≡ true) ↔ (u ≡ v)
unfolding same_master
same_master-eq u v = (to, from)
  where
    to : same_master u v ≡ true → u ≡ v
    to h =
        let (
          (
            (((((((((((((e0, e1), e2), e3), e4), e5), e6), e7), e8), e9), e10), e11), e12), e13),
            e14,
          ),
          e15,
        ) =
          master-fields u v h in
        cc

    from : u ≡ v → same_master u v ≡ true
    from e = rw e (
        simp
          (
            same_bit_refl v.awvalid,
            ==_refl v.awaddr,
            ==_refl v.awid,
            ==_refl v.awlen,
            ==_refl v.awburst,
            same_bit_refl v.wvalid,
            ==_refl v.wdata,
            ==_refl v.wstrb,
            same_bit_refl v.wlast,
            same_bit_refl v.bready,
            same_bit_refl v.arvalid,
            ==_refl v.araddr,
            ==_refl v.arid,
            ==_refl v.arlen,
            ==_refl v.arburst,
            same_bit_refl v.rready,
          )
          refl)
