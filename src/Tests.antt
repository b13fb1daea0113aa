-- ===== src/Tests.antt =====
-- Concrete runs of the models of otlib/ and otsys/, at which the theorems apply.
mod Queues
mod Clocks
mod Keys
mod Crypto
mod Records
mod Volumes
mod Lists
mod Texts
mod Boots
mod Filesystems
mod Samples
mod Files
mod Reopened
