-- ===== src/Sse.antt =====
-- pkg/sse/v2alpha/sse.go: the event streams of the SSE server. `Filter` has the query filters, `Log`
-- what the streams deliver, `Resume` the offset of a resumed stream, `Subscribe` the goroutine that
-- forwards messages, `Handler` the HTTP handler, whose counters are in `Metrics`, and `RunLog` and
-- `EndToEnd` the way from the bus to the client.
pub mod Filter
pub mod Log
pub mod Resume
pub mod Subscribe
pub mod Handler
pub mod RunLog
pub mod EndToEnd
pub mod Tests
