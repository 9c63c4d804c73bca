-- ===== src/Tlv.antt =====
-- lwm2m_parser_deserialize.c and lwm2m_parser_serialize.c: the TLV and the text format of payloads.
pub mod Header
pub mod Value
pub mod Parse
pub mod Serialize
