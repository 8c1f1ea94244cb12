-- ===== src/Sched.antt =====
-- src/atlas/sched: placement policies (Place), queue policies (Queue), and their names (Factory).
pub mod Place
pub mod Factory
pub mod Queue
