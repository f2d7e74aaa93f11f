-- ===== src/Pool.antt =====
-- pkg/worker_pool: the queues of the pool, and the pool.
pub mod LinkedQueue
pub mod PriorityQueue
pub mod WorkerPool
