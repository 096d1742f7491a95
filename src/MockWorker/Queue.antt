-- ===== src/MockWorker/Queue.antt =====
-- internal/mockworker/worker.go: any number of calls of `Generate` beside the one goroutine of `dispatch`. What stands
-- between two uses of a channel, of a context or of the worker's mutex is one step. That a timer runs out is always
-- possible, and a wait of no length may be cut short as any other; the checks of the request, after which a call
-- begins here, are `check_request`. No job is nil: the channel is never closed.
mod Jobs
mod Steps
pub mod Share
pub mod Counted
pub mod Served
pub mod Tended
pub mod Progress
pub mod Returns
pub mod Drained
pub mod Numbered
pub mod Fed
pub mod Feeding
pub mod Streams
pub mod Delivered
pub use Jobs.*
pub use Steps.*
