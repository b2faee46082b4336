-- ===== src/Messaging/Text.antt =====
-- The text form of a message: the printer of src/messaging/ACLMessage.cpp, the lexer of
-- src/messaging/fipa_acl.l and the grammar of src/messaging/fipa_acl.y.
pub mod Tokens
pub mod Lexer
pub mod Parser
pub mod Printer
pub mod RoundTrip
