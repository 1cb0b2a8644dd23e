-- ===== src/Delta.antt =====
-- A process of SystemC that copies signals (SC_METHOD), as riscv_top.cpp and riscv_tcm_top_rtl.cpp have
-- one. The scheduler is SystemC's and not part of the repository. It alternates two phases: in the
-- evaluation phase the processes that are due run, and what they write to a signal is kept as its next
-- value; in the update phase the signals take their next values. A process is due at the start and after
-- each update that changed what it is sensitive to.
use riscv_v2f_optimized.Prelude.{Bool, true, false, ◌≡◌, refl}

-- The signals with their values, with their next values, and whether the process is due.
pub record Delta (A : Type 0) : Type 0 where
  pub now : A
  pub next : A
  pub due : Bool

-- `run` is the process, with its writes done; `drive` what the environment writes in the same
-- evaluation phase; `watched` what the process is sensitive to.
module _ {A E W : Type 0} (run : A → A) (drive : E → A → A) (watched : A → W) where
  -- The update phase, once the process is not due. It may be made due without need.
  pub data Update : Delta A → Delta A → Type 0 where
    wakes :
        (now next : A) (env : E)
        → Update
            (record { now = now; next = next; due = false })
            (record { now = drive env next; next = drive env next; due = true })
    sleeps :
        (now next : A) (env : E)
        → watched (drive env next) ≡ watched now
        → Update
            (record { now = now; next = next; due = false })
            (record { now = drive env next; next = drive env next; due = false })

  -- The start of the simulation, the process in an evaluation phase, and an update phase.
  pub data Reaches (start : A) : Delta A → Type 0 where
    starts : Reaches start (record { now = start; next = start; due = true })
    evaluates :
        {now next : A}
        → Reaches start (record { now = now; next = next; due = true })
        → Reaches start (record { now = now; next = run now; due = false })
    updates : {d u : Delta A} → Reaches start d → Update d u → Reaches start u

  -- A relation that the process establishes between the values it read and those that it wrote holds
  -- across every update, if it depends only on what the process is sensitive to.
  module _ (Follows : A → A → Type 0) (ran : (a : A) → Follows a (run a))
      (driven : (env : E) (a b : A) → Follows a b → Follows a (drive env b))
      (stays : (env : E) (a b : A)
        → watched (drive env b) ≡ watched a
        → Follows a b
        → Follows (drive env b) (drive env b)) where
    abbrev Holds : Delta A → Type 0
    Holds d = d.due ≡ false → Follows d.now d.next

    Update-Holds : {d u : Delta A} → Update d u → Holds d → Holds u
    Update-Holds (wakes a b env) h e = cc
    Update-Holds (sleeps a b env w) h e = stays env a b w (h refl)

    Reaches-Holds : {start : A} {d : Delta A} → Reaches start d → Holds d
    Reaches-Holds starts e = cc
    Reaches-Holds (evaluates {now} r) e = ran now
    Reaches-Holds (updates r u) e = Update-Holds u (Reaches-Holds r) e

    pub Update-Follows :
        {start : A} {d u : Delta A} → Reaches start d → Update d u → Follows d.now u.now
    Update-Follows r (wakes a b env) = driven env a b (Reaches-Holds r refl)
    Update-Follows r (sleeps a b env w) = driven env a b (Reaches-Holds r refl)
