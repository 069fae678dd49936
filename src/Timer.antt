-- ===== src/Timer.antt =====
-- taskette/src/timer.rs: the start of the timer. The operations stand in the children; they use the
-- scheduler, which uses this module.
pub mod Ops
pub mod Lateness
pub mod Waiting
use taskette.Base.{some}
use taskette.Heapless.{DequeLib, IndexMapLib, BinaryHeapLib}
use taskette.Kernel.{World}

module _ ⦃d : DequeLib⦄ ⦃m : IndexMapLib⦄ ⦃h : BinaryHeapLib⦄ where
  unfoldable pub init : World → World
  init w = record w { timer = some (record { time = 0; queue = h.new }) }
