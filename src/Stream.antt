-- ===== src/Stream.antt =====
-- quiche/src/stream: the data of a stream, on its way to the application (RecvBuf) and to the peer (SendBuf).
pub mod RangeBuf
pub mod RecvBuf
pub mod Split
pub mod Read
pub mod Write
pub mod Halves
pub mod Overlaps
pub mod Accept
pub mod Reset
pub mod Apart
pub mod Bytes
pub mod Union
pub mod SendBuf
pub mod Chain
pub mod Unsent
pub mod Waiting
pub mod Copied
pub mod Rounds
pub mod Emit
pub mod Pushes
pub mod Queue
pub mod Rewound
pub mod Resent
pub mod Cut
pub mod Resend
pub mod Acked
pub mod Complete
pub mod Sender
pub mod Content
pub mod Keeps
pub mod Left
pub mod Delivery
pub mod Frames
pub mod Carried
pub mod Arrived
pub mod Delivered
mod SendTests
mod DeliveryTests
mod Tests
