-- ===== src/Business/Tests.antt =====
-- The services on concrete inputs, with a table as a function from the unique index.
mod Orders
mod Items
mod Players
