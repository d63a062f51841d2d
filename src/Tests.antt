-- ===== src/Tests.antt =====
-- The theorems at concrete inputs, and runs of the code.
mod Series
mod Displays
mod Charts
mod Session
mod Pages
mod Live
mod Sessions
mod Addresses
mod Visits
mod AppVisits
mod Subscriptions
mod Streams
