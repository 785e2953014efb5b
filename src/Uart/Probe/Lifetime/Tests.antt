-- ===== src/Uart/Probe/Lifetime/Tests.antt =====
-- The module with the good card of Probe.Tests, whose second character device cannot be registered.
use linux_learning_by_doing.Prelude.{◌≡◌, refl, some, pos, neg}
use linux_learning_by_doing.Uart.State.{Kernel}
use linux_learning_by_doing.Uart.Probe.Tests.{good, start, works}
use linux_learning_by_doing.Uart.Probe.Table.{stop}
use linux_learning_by_doing.Uart.Probe.Lifetime.{life, Leaves, lifetime}

abbrev idle : Kernel
idle = record start { claims = record (start.claims) { driver = 0 } }

lifetime_example :
    (k' : Kernel) × (life (record good { cdev_2 = neg 16 }) (pos 0) idle ≡ some k')
    × Leaves
        (record good { cdev_2 = neg 16 })
        (pos 0)
        (stop (record good { cdev_2 = neg 16 }) (pos 0) (pos 0))
        idle
        k'
lifetime_example =
    lifetime (record good { cdev_2 = neg 16 }) (pos 0) idle refl refl (works 0xd000) (works 0xd008)
