-- ===== src/Main/Launch/Leading.antt =====
-- The stages that the set-up of the main process goes through (src/main.c).
use so_lab_project.Ipc.Acts.{◌>>=◌, follow-EndsIn}
use so_lab_project.Main.Launch.{Main, Act}
use so_lab_project.Main.Launch.Sound.{
  SegmentReady, SegmentFresh, SemaphoreReady, SemaphoreFresh, GateFresh, Parts, Sound, IsUntouched,
  IsComplete, Ends, fresh-SegmentSound, fresh-SemaphoreSound, ready-SemaphoreSound, fresh-GateSound,
  ready-GateSound,
}

-- Behind each part of the set-up.
abbrev pub Configured : Main → Type 0
Configured =
    Parts SegmentReady SegmentFresh SegmentFresh SemaphoreReady SemaphoreFresh SemaphoreFresh
      GateFresh

abbrev pub LaidOut : Main → Type 0
LaidOut =
    Parts SegmentReady SegmentReady SegmentReady SemaphoreReady SemaphoreReady SemaphoreFresh
      GateFresh

abbrev pub Gated : Main → Type 0
Gated =
    Parts SegmentReady SegmentReady SegmentReady SemaphoreReady SemaphoreReady SemaphoreReady
      GateFresh

-- What was created, and what was not.
module _ (m : Main) where
  pub untouched-Sound : IsUntouched m → Sound m
  untouched-Sound (a, b, c, d, e, f, p) = (
    fresh-SegmentSound m.config a,
    fresh-SegmentSound m.all_drones b,
    fresh-SegmentSound m.stack c,
    fresh-SemaphoreSound m.config_semaphore d,
    fresh-SemaphoreSound m.all_drones_semaphore e,
    fresh-SemaphoreSound m.gate_semaphore f,
    fresh-GateSound m.gate p,
  )

  pub configured-Sound : Configured m → Sound m
  configured-Sound (a, b, c, d, e, f, p) = (
    a.0,
    fresh-SegmentSound m.all_drones b,
    fresh-SegmentSound m.stack c,
    ready-SemaphoreSound m.config_semaphore d,
    fresh-SemaphoreSound m.all_drones_semaphore e,
    fresh-SemaphoreSound m.gate_semaphore f,
    fresh-GateSound m.gate p,
  )

  pub laid_out-Sound : LaidOut m → Sound m
  laid_out-Sound (a, b, c, d, e, f, p) = (
    a.0,
    b.0,
    c.0,
    ready-SemaphoreSound m.config_semaphore d,
    ready-SemaphoreSound m.all_drones_semaphore e,
    fresh-SemaphoreSound m.gate_semaphore f,
    fresh-GateSound m.gate p,
  )

  pub gated-Sound : Gated m → Sound m
  gated-Sound (a, b, c, d, e, f, p) = (
    a.0,
    b.0,
    c.0,
    ready-SemaphoreSound m.config_semaphore d,
    ready-SemaphoreSound m.all_drones_semaphore e,
    ready-SemaphoreSound m.gate_semaphore f,
    fresh-GateSound m.gate p,
  )

  pub complete-Sound : IsComplete m → Sound m
  complete-Sound (a, b, c, d, e, f, p) = (
    a.0,
    b.0,
    c.0,
    ready-SemaphoreSound m.config_semaphore d,
    ready-SemaphoreSound m.all_drones_semaphore e,
    ready-SemaphoreSound m.gate_semaphore f,
    ready-GateSound m.descriptor m.gate p,
  )

-- `a` leads from one stage to another.
abbrev pub Leads : (Main → Type 0) → (Main → Type 0) → Act → Type 0
Leads P Q a = (m : Main) → P m → Ends Q (a m)

pub chain : (P Q R : Main → Type 0) (a b : Act) → Leads P Q a → Leads Q R b → Leads P R (a >>= b)
chain P Q R a b h k m p = follow-EndsIn Sound Q R (a m) b (h m p) k
