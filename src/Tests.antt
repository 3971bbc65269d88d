-- ===== src/Tests.antt =====
-- Concrete inputs: the examples of the theorems, and runs of the model.
mod Service
mod Schedule
mod Poll
mod Scrape
mod Fetch
mod Ingest
mod Poller
mod Parse
mod Store
mod Machine
mod Deletion
mod Entries
mod Sems
mod Memory
mod Items
mod Opml
mod Imgproxy
mod Requests
mod Sanitize
mod Web
