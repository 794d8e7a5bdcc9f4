-- ===== src/Streaming.antt =====
-- src/fs/streaming.rs: the ingester that cuts its input into chunks as it arrives, and the decoder that
-- reads a file chunk by chunk. The asynchronous ingester hands every call to this one. The running
-- digest, which nothing reads, and the warning on large corrections are left out.
pub mod Buffer
pub mod Ingester
pub mod Slices
pub mod Decoder
pub mod Pieces
pub mod Remaining
pub mod Reads
mod Runs
