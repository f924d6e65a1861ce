-- ===== src/Purchasing/Totals.antt =====
-- The stock after an action on all the lines of an order (purchasing.ts).
use cafe_retail_software.Database.{Database}
use cafe_retail_software.Mongo.{Mongo}
