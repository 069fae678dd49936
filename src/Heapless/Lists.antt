-- ===== src/Heapless/Lists.antt =====
-- Plain lists meet the laws of the containers: the instances at which the theorems are run.
mod Deques
mod Maps
mod Heaps
unfoldable pub use Deques.{list_deque}
unfoldable pub use Maps.{list_map}
unfoldable pub use Heaps.{list_heap}
