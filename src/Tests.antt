-- ===== src/Tests.antt =====
-- Concrete instances of what the program takes from outside, and the tests.
mod World
mod CoreTests
mod SessionTests
mod LoopTests
mod MemoryTests
mod CommandTests
mod RegistryTests
mod ProviderTests
mod TuiTests
mod PatchTests
mod ProcessTests
mod PatchToolTests
mod RequestTests
mod PolicyTests
mod SearchTests
mod StreamTests
