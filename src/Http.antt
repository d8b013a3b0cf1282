-- ===== src/Http.antt =====
-- HTTP/1.1 of src/KernelHttpLib/http: texts, responses, the parser and the transfer codings.
pub mod Text
pub mod Response
pub mod Parser
pub mod Transfer
