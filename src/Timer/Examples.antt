-- ===== src/Timer/Examples.antt =====
-- The timers of a quiet connection and of a closing one.
use natporte.Base.{◌/◌, refl, some, ◌==◌, if◌then◌else◌, arith, inl, true}
use natporte.TcpState.{established}
use natporte.Packet.{ipproto_tcp}
use natporte.System.Samples.{system_in, system_in-IsSystem}
use natporte.Timer.{timer_step}
use natporte.Timer.Fires.{Settles, timer_step-Settles}

timer_step-Settles_example :
    Settles
      (system_in 6 established)
      200
      100000
      0
      ((if ((system_in 6 established).globals.table.entry 0).protocol == ipproto_tcp
          then 86400000
          else 60000)
        / 1000)
      (timer_step true 200 100000
        (some ((system_in 6 established).globals.table.entry 0).l2w_key)
        (system_in 6 established))
timer_step-Settles_example =
    timer_step-Settles (system_in 6 established) 200 100000 0 86400000 60000
      (system_in-IsSystem 6 established (omega arith)) (inl refl) refl refl refl (inl refl)
