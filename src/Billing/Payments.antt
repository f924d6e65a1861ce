-- ===== src/Billing/Payments.antt =====
-- What the collection of a payment does to an invoice (financial.ts).
use cafe_retail_software.Result.{ran}
use cafe_retail_software.Result.Pure.{ran}
use cafe_retail_software.Database.{Database}
use cafe_retail_software.Mongo.{Mongo}
