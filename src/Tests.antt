-- ===== src/Tests.antt =====
-- A small cluster that meets the assumptions on the client, runs of the program on it, and the
-- theorems at concrete inputs.
mod Cluster
mod Data
mod Controller
mod Webhook
mod Command
mod Faulty
mod System
mod Define
mod Show
mod Startup
mod Kept
mod Manager
mod Parser
mod Line
mod Stored
mod Cycle
mod Unmutated
mod Unreviewed
mod Restarted
