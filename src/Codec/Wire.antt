-- ===== src/Codec/Wire.antt =====
-- The network data macros of zccp_msg.c: PUT_* write at the needle of a frame, GET_* read there.
pub mod Put
pub mod Get
