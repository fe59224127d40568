-- ===== src/Safety.antt =====
-- Memory safety: what the memory of the process looks like between two calls, and that no call
-- and no round of the poll thread ever reaches undefined behaviour from there.
pub mod Frame
pub mod Polling
pub mod Closing
pub mod Invariant
pub mod Lookup
pub mod Holders
pub mod Account
pub mod Removal
pub mod Parking
pub mod Retiring
pub mod Extending
pub mod Making
pub mod Inserting
pub mod Creation
pub mod Feeding
pub mod Sending
pub mod Calls
pub mod Dismissing
pub mod Disposing
pub mod Teardown
pub mod Starting
pub mod Creating
pub mod Setting
pub mod Configuring
pub mod Attaching
pub mod Connecting
pub mod Parameters
pub mod Unsetting
pub mod Unloading
pub mod Promises
pub mod Readers
pub mod Advancing
pub mod Sharing
pub mod Alone
pub mod Sessions
pub mod Counting
pub mod Accounting
pub mod History
pub mod Responsive
pub mod Functions
