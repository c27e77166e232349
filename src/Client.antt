-- ===== src/Client.antt =====
-- The client of internal/core/analytics.go. Each of its parts stands in a child: how a client is made
-- (`Setup`), `Enqueue`, the sending of a batch with its retries (`Send`), and the loop that batches
-- (`Loop`).
pub mod Setup
pub mod Enqueue
pub mod Send
pub mod Loop
pub mod Close
mod Tests
