-- ===== src/Sender.antt =====
-- tx/main.c: the send loop, from the entries of waybeam's ring to the bytes on the data socket.
pub mod Write
pub mod Written
pub mod Staged
pub mod Carried
pub mod Items
pub mod Stages
pub mod Wire
pub mod Slices
pub mod Counts
pub mod Offers
pub mod Held
pub mod Whole
mod Tests
