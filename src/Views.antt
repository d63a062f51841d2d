-- ===== src/Views.antt =====
-- What the components render, without styling.
pub mod Chart
pub mod Lists
pub mod Page
pub mod Forms
