-- ===== src/Messaging.antt =====
-- src/messaging and include/gagent/messaging: ACL messages, their text, and the transports.
pub mod Message
pub mod Performatives
pub mod Quoting
pub mod Transport
pub mod Mock
pub mod Mailboxes
pub mod Text
pub mod Mq
pub mod Zmq
