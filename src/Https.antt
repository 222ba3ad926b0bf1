-- ===== src/Https.antt =====
-- The HTTPS service: https/ApiServer.h and https/ApiServer.cpp.
pub mod Buckets
pub mod Workers
pub mod Query
pub mod Numbers
pub mod Scores
pub mod Urls
pub mod Orders
pub mod Visits
pub mod Requests
pub mod Service
