-- ===== src/Tests.antt =====
-- The theorems at concrete inputs, in a cafe with one branch.
mod World
mod Shop
mod Counter
mod Till
mod Life
