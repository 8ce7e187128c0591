-- ===== src/Scrape.antt =====
-- ujin/scrape/service.py: `ScrapeService`, one scrape of an address from the cooldown to the result.
pub mod Model
pub mod Fetch
pub mod Links
pub mod Extract
pub mod Service
pub mod Multi
